-- ===== src/Patch/Separate.antt =====
-- What node:fs does with paths that name separate files: operations on one of them leave the others.
use codex_compatible_mcp.Base.{
  ◌≡◌, refl, ◌∙◌, inl, inr, Bool, true, false, Option, none, some, List, [], ◌∷◌, nat_beq, any,
  arith, ◌==◌, if◌then◌else◌, Bool-cases, ok, err,
}
use codex_compatible_mcp.Base.Text.{Text, text_eq, text_beq_iff}
use codex_compatible_mcp.Patch.Writable.{Host}
use codex_compatible_mcp.Patch.Files.{
  Entry, missing, nul_bytes, file, FileSystem, Op, write_file, unlink, Ran, failing_at, then_do,
  run_op, run_ops,
}
use codex_compatible_mcp.Patch.Staging.{is_file}

abbrev pub is_plain : Entry → Bool
is_plain missing = true
is_plain e = is_file e

-- What a read finds where a text was written: `decoded` is what the UTF-8 encoding of a text is decoded
-- to, and a NUL character is a NUL byte.
abbrev pub read_back : (Text → Text) → Text → Entry
read_back decoded content =
    if any (λ u. nat_beq u 0) content then nul_bytes else file (decoded content)

-- The paths `among` name separate files that may be written: none is a link to another or its spelling
-- in other letters, and none lies within another. Where one of them is free or a file, its directory
-- can be made, the file can then be written, and a file can be removed; each call leaves what is found
-- under the others.
pub record IsSeparate {D : Type 0} (fs : FileSystem D) (host : Host) (among : Text → Bool)
    (decoded : Text → Text) : Type 0 where
  pub has_directory : D → Text → Bool
  pub mkdir_succeeds :
      (d : D) (p : Text)
      → among p ≡ true
      → is_plain (fs.find d p) ≡ true
      → (fs.mkdir d (host.dirname p)).1 ≡ true
  pub mkdir_there :
      (d : D) (p : Text)
      → among p ≡ true
      → is_plain (fs.find d p) ≡ true
      → has_directory (fs.mkdir d (host.dirname p)).0 p ≡ true
  pub mkdir_keeps :
      (d : D) (p q : Text)
      → among p ≡ true
      → is_plain (fs.find d p) ≡ true
      → among q ≡ true
      → fs.find (fs.mkdir d (host.dirname p)).0 q ≡ fs.find d q
  pub write_succeeds :
      (d : D) (p content : Text)
      → among p ≡ true
      → is_plain (fs.find d p) ≡ true
      → has_directory d p ≡ true
      → (fs.write_text d p content).1 ≡ true
  pub write_there :
      (d : D) (p content : Text)
      → among p ≡ true
      → is_plain (fs.find d p) ≡ true
      → has_directory d p ≡ true
      → fs.find (fs.write_text d p content).0 p ≡ read_back decoded content
  pub write_keeps :
      (d : D) (p content q : Text)
      → among p ≡ true
      → is_plain (fs.find d p) ≡ true
      → has_directory d p ≡ true
      → among q ≡ true
      → (p == q) ≡ false
      → fs.find (fs.write_text d p content).0 q ≡ fs.find d q
  pub remove_succeeds :
      (d : D) (p : Text)
      → among p ≡ true
      → is_file (fs.find d p) ≡ true
      → (fs.remove_file d p).1 ≡ true
  pub remove_there :
      (d : D) (p : Text)
      → among p ≡ true
      → is_file (fs.find d p) ≡ true
      → fs.find (fs.remove_file d p).0 p ≡ missing
  pub remove_keeps :
      (d : D) (p q : Text)
      → among p ≡ true
      → is_file (fs.find d p) ≡ true
      → among q ≡ true
      → (p == q) ≡ false
      → fs.find (fs.remove_file d p).0 q ≡ fs.find d q

abbrev pub op_path : Op → Text
op_path (write_file path content) = path
op_path (unlink path) = path

-- The first operation on a path.
abbrev pub first_on : Text → List Op → Option Op
first_on q [] = none
first_on q (op ∷ ops) = if op_path op == q then some op else first_on q ops

-- No path is the business of two operations.
abbrev pub Once : List Op → Type 0
Once [] = Unit
Once (op ∷ ops) = (first_on (op_path op) ops ≡ none) × Once ops

-- What an operation asks of the entry under its path.
abbrev pub suits : Op → Entry → Bool
suits (write_file path content) e = is_plain e
suits (unlink path) e = is_file e

-- What is found under the path of an operation once it is done.
abbrev pub effect : (Text → Text) → Entry → Option Op → Entry
effect decoded e none = e
effect decoded e (some (write_file path content)) = read_back decoded content
effect decoded e (some (unlink path)) = missing

then_do-ok : {D : Type 0} (x : Ran D) (next : D → Ran D) → x.1 ≡ ok tt → then_do x next ≡ next x.0
then_do-ok (d, ok u) next h = refl
then_do-ok (d, err e) next h = absurd cc

failing_at-ok : {D : Type 0} (p : Text) (x : D × Bool) → x.1 ≡ true → failing_at p x ≡ (x.0, ok tt)
failing_at-ok p (d, true) h = refl
failing_at-ok p (d, false) h = absurd cc

module _ {D : Type 0} (fs : FileSystem D) (host : Host) (among : Text → Bool)
    (decoded : Text → Text) (h : IsSeparate fs host among decoded) where
  -- A call that changes the entry under its own path alone.
  pub record Does (p : Text) (entry : Entry) (d : D) (x : Ran D) : Type 0 where
    pub done : x.1 ≡ ok tt
    pub there : fs.find x.0 p ≡ entry
    pub keeps : (q : Text) → among q ≡ true → (p == q) ≡ false → fs.find x.0 q ≡ fs.find d q

  run_op-Does :
      (op : Op) (d : D)
      → among (op_path op) ≡ true
      → suits op (fs.find d (op_path op)) ≡ true
      → Does
          (op_path op)
          (effect decoded (fs.find d (op_path op)) (some op))
          d
          (run_op fs host op d)
  unfolding run_op
  run_op-Does (unlink p) d a r =
      rw (failing_at-ok p (fs.remove_file d p) (h.remove_succeeds d p a r)) (record {
        done = refl;
        there = h.remove_there d p a r;
        keeps = λ q b other. h.remove_keeps d p q a r b other;
      })
  run_op-Does (write_file p content) d a r =
      let made = (fs.mkdir d (host.dirname p)).0 in
      let same : fs.find made p ≡ fs.find d p = h.mkdir_keeps d p p a r a in
      let free : is_plain (fs.find made p) ≡ true = rw same r in
      let there = h.mkdir_there d p a r in
      rw
        (
          failing_at-ok p (fs.mkdir d (host.dirname p)) (h.mkdir_succeeds d p a r),
          failing_at-ok p (fs.write_text made p content)
              (h.write_succeeds made p content a free there),
        )
        (record {
          done = refl;
          there = h.write_there made p content a free there;
          keeps = λ q b other.
              h.write_keeps made p content q a free there b other ∙ h.mkdir_keeps d p q a r b;
        })

  -- Each operation is on a path among them, and finds there what it asks for.
  unfoldable pub AllSuit : D → List Op → Type 0
  AllSuit d [] = Unit
  AllSuit d (op ∷ ops) =
      (among (op_path op) ≡ true) × (suits op (fs.find d (op_path op)) ≡ true) × AllSuit d ops

  AllSuit-kept :
      (p : Text) (d d' : D)
      → ((q : Text) → among q ≡ true → (p == q) ≡ false → fs.find d' q ≡ fs.find d q)
      → (ops : List Op) → first_on p ops ≡ none
      → AllSuit d ops
      → AllSuit d' ops
  unfolding AllSuit
  AllSuit-kept p d d' keeps [] new s = tt
  AllSuit-kept p d d' keeps (op ∷ ops) new (a, r, s) = elim (Bool-cases (op_path op == p)) [
    | inl same ↦ absurd (ground (arith, same))
    | inr other ↦
        let apart : (p == op_path op) ≡ false =
          ground (arith, text_beq_iff (op_path op) p, text_beq_iff p (op_path op)) in
        (
          a,
          rw (keeps (op_path op) a apart) r,
          AllSuit-kept p d d' keeps ops (ground (arith, other)) s,
        )
  ]

  -- Operations that suit, no two on one path, all succeed, and leave under each path what the one on it
  -- leaves.
  pub run_ops-effect :
      (ops : List Op) (d : D)
      → Once ops
      → AllSuit d ops
      → ((run_ops fs host ops d).1 ≡ ok tt)
        × ((q : Text)
            → among q ≡ true
            → fs.find (run_ops fs host ops d).0 q ≡ effect decoded (fs.find d q) (first_on q ops))
  unfolding run_ops AllSuit
  run_ops-effect [] d once s = (refl, λ q b. refl)
  run_ops-effect (op ∷ ops) d once (a, r, s) =
      let does = run_op-Does op d a r in
      let next = (run_op fs host op d).0 in
      let rest =
        run_ops-effect ops next once.1 (AllSuit-kept (op_path op) d next does.keeps ops once.0 s) in
      rw (then_do-ok (run_op fs host op d) (run_ops fs host ops) does.done) (
        rest.0,
        λ q b. rest.1 q b ∙ elim (Bool-cases (op_path op == q)) [
          | inl same ↦
              let at : op_path op ≡ q = (text_beq_iff (op_path op) q).0 same in
              let alone : first_on q ops ≡ none = rw (← at) once.0 in
              rw (same, alone) (rw (← at) does.there)
          | inr other ↦ rw (other, does.keeps q b other) refl
        ],
      )
