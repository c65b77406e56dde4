-- ===== src/Gen/Dirs.antt =====
-- Which directories `c_gen` writes to (main/src/gen.rs): that of a file of the sources, and where
-- it is when it goes on to the next one.
use cargo_stylus.Common.{
  ◌≡◌, refl, sym, ap, ◌∙◌, String, Bool, true, false, Option, none, some, List, [], ◌∷◌, ◌++◌,
  if◌then◌else◌, All, append-All,
}
use mathlib.Core.List.{append_assoc, append-nil}
use mathlib.Core.Path.{subst}
use cargo_stylus.Common.Outcome
use cargo_stylus.Common.Outcome.{Outcome, ok, err, ◌>>=◌}
use cargo_stylus.Cli.Words.{is_empty}
use cargo_stylus.Trace.Json.{Value, Members, null, bool, object, array, string, number, end, member}
use cargo_stylus.Gen.Text.{Function}
use cargo_stylus.Gen

pub pop-append : (path : List String) (last : String) → Gen.pop (path ++ last ∷ []) ≡ path
unfolding Gen.pop
pop-append [] last = refl
pop-append (a ∷ []) last = refl
pop-append (a ∷ b ∷ path) last = ap (λ p. a ∷ p) (pop-append (b ∷ path) last)

abbrev File : Type 0
File = List String × String

-- A file that stands in a directory
abbrev pub IsIn : (dir : List String) → File → Type 0
IsIn dir file = (filename : String) × (file.0 ≡ dir ++ filename ∷ [])

-- The files of `before`, and then new ones, each of them in the directory
abbrev pub Adds : (dir : List String) → (before after : List File) → Type 0
Adds dir before after = (new : List File) × (after ≡ before ++ new) × All (IsIn dir) new

-- A step that succeeds wherever it starts, stays in its directory and writes to it alone
abbrev IsLocal : (Gen.GenState → Outcome Gen.GenError Gen.GenState) → Type 0
IsLocal f =
    (state : Gen.GenState)
    → (after : Gen.GenState) × (f state ≡ ok after)
      × (after.pathbuf ≡ state.pathbuf)
      × Adds state.pathbuf state.files after.files

ok-IsLocal : IsLocal (λ state. ok state)
ok-IsLocal state = (state, refl, refl, ([], sym (append-nil state.files), tt))

Adds-trans : (dir : List String) (a b c : List File) → Adds dir a b → Adds dir b c → Adds dir a c
Adds-trans dir a b c (new, e, h) (more, e', h') = (
  new ++ more,
  e' ∙ ap (λ xs. xs ++ more) e ∙ append_assoc a new more,
  append-All (IsIn dir) new more h h',
)

>>=-IsLocal :
    (f g : Gen.GenState → Outcome Gen.GenError Gen.GenState)
    → IsLocal f
    → IsLocal g
    → IsLocal (λ state. f state >>= g)
>>=-IsLocal f g hf hg state =
    let (mid, e, p, a) = hf state in
    let (after, e', p', a') = hg mid in
    (
      after,
      ap (λ r. r >>= g) e ∙ e',
      p' ∙ p,
      Adds-trans state.pathbuf state.files mid.files after.files a
          (subst (λ dir. Adds dir mid.files after.files) p a'),
    )

if-IsLocal :
    (b : Bool) (f g : Gen.GenState → Outcome Gen.GenError Gen.GenState)
    → IsLocal f
    → IsLocal g
    → IsLocal (λ state. if b then f state else g state)
if-IsLocal true f g hf hg = hf
if-IsLocal false f g hf hg = hg

-- A host where every directory can be made, every file written and every ABI read
module _ (H : Gen.GenHost) (creates_all : (dir : List String) → Gen.GenHost.creates H dir ≡ true)
    (writes_all : (path : List String) → Gen.GenHost.writes H path ≡ true)
    (reads_all : (abi : Value)
      → (fs : List Function) × (Gen.GenHost.abi_functions H abi ≡ some fs)) where
  write-IsLocal : (filename contents : String) → IsLocal (Gen.write H filename contents)
  unfolding Gen.write
  write-IsLocal filename contents state =
      let path = state.pathbuf ++ filename ∷ [] in
      let new = (path, contents) ∷ [] in
      (
        record state { files = state.files ++ new },
        ap
            (λ b.
              if b
              then ok (record state { files = state.files ++ new })
              else err Gen.GenError.not_written)
            (writes_all path),
        refl,
        (new, refl, ((filename, refl), tt)),
      )

  write_some-IsLocal :
      (text filename contents : String) → IsLocal (Gen.write_some H text filename contents)
  unfolding Gen.write_some
  write_some-IsLocal text filename contents =
      if-IsLocal (is_empty text) (λ state. ok state) (Gen.write H filename contents) ok-IsLocal
        (write-IsLocal filename contents)

  methods_ok :
      (raw : Option Value)
      → (methods : List (String × List Function)) × (Gen.methods_of H raw ≡ ok methods)
  unfolding Gen.methods_of
  methods_ok none = ([], refl)
  methods_ok (some raw) =
      let (fs, e) = reads_all raw in
      (
        Gen.add_methods fs [],
        ap
            (λ o. Outcome.ok_or Gen.GenError.bad_abi o >>= λ functions.
              ok (Gen.add_methods functions []))
            e,
      )

  write_contract-IsLocal :
      (file_name contract_name : String) (layout : Option Value)
      (methods : List (String × List Function))
      → IsLocal (Gen.write_contract H file_name contract_name layout methods)
  unfolding Gen.write_contract
  write_contract-IsLocal file_name contract_name layout methods =
      >>=-IsLocal _ _ (write_some-IsLocal _ _ _) (write_some-IsLocal _ _ _)

  gen_contract-IsLocal :
      (file_name contract_name : String) (value : Value)
      → IsLocal (Gen.gen_contract H file_name contract_name value)
  unfolding Gen.gen_contract
  gen_contract-IsLocal file_name contract_name (object properties) state =
      let (methods, e) = methods_ok (Gen.Storage.get "abi" properties) in
      let (after, w, p, a) =
        write_contract-IsLocal file_name contract_name (Gen.Storage.get "storageLayout" properties)
          (Gen.GenHost.order H methods) state in
      (
        after,
        ap
              (λ r. r >>= λ found.
                Gen.write_contract H file_name contract_name
                  (Gen.Storage.get "storageLayout" properties) (Gen.GenHost.order H found) state)
              e
            ∙ w,
        p,
        a,
      )
  gen_contract-IsLocal file_name contract_name null state = ok-IsLocal state
  gen_contract-IsLocal file_name contract_name (bool b) state = ok-IsLocal state
  gen_contract-IsLocal file_name contract_name (number n) state = ok-IsLocal state
  gen_contract-IsLocal file_name contract_name (string s) state = ok-IsLocal state
  gen_contract-IsLocal file_name contract_name (array values) state = ok-IsLocal state

  gen_contracts-IsLocal :
      (file_name : String) (contracts : Members) → IsLocal (Gen.gen_contracts H file_name contracts)
  unfolding Gen.gen_contracts
  gen_contracts-IsLocal file_name end = ok-IsLocal
  gen_contracts-IsLocal file_name (member contract_name value rest) =
      >>=-IsLocal (Gen.gen_contract H file_name contract_name value)
        (Gen.gen_contracts H file_name rest) (gen_contract-IsLocal file_name contract_name value)
        (gen_contracts-IsLocal file_name rest)

  leave : Outcome Gen.GenError Gen.GenState → Outcome Gen.GenError Gen.GenState
  unfolding Gen.pop
  leave found = found >>= λ done. ok (record done { pathbuf = Gen.pop done.pathbuf })

  -- A file of the sources whose name has the components `parents ++ last ∷ []`, at a host where
  -- every directory is made, every file written and every ABI read: generation succeeds, each file
  -- it adds stands in the directory of the file's name, below the one it began in, and it ends in
  -- the directory of `parents` below that one, which is where it began only if `parents` is empty.
  pub gen_file_dirs :
      (file_name last : String) (parents : List String) (contracts : Members) (state : Gen.GenState)
      → Gen.GenHost.components H file_name ≡ parents ++ last ∷ []
      → (after : Gen.GenState) × (Gen.gen_file H file_name (object contracts) state ≡ ok after)
        × (after.pathbuf ≡ state.pathbuf ++ parents)
        × Adds (state.pathbuf ++ parents ++ last ∷ []) state.files after.files
  unfolding Gen.gen_file leave
  gen_file_dirs file_name last parents contracts state named =
      let dir = state.pathbuf ++ Gen.GenHost.components H file_name in
      let is_dir : dir ≡ (state.pathbuf ++ parents) ++ last ∷ [] =
        ap (λ cs. state.pathbuf ++ cs) named
        ∙ sym (append_assoc state.pathbuf parents (last ∷ [])) in
      let (after, e, p, a) =
        gen_contracts-IsLocal file_name contracts (record state { pathbuf = dir }) in
      (
        record after { pathbuf = Gen.pop after.pathbuf },
        ap
              (λ b.
                if b
                then leave
                    (Gen.gen_contracts H file_name contracts (record state { pathbuf = dir }))
                else err Gen.GenError.dir_not_made)
              (creates_all dir)
            ∙ ap leave e,
        ap Gen.pop (p ∙ is_dir) ∙ pop-append (state.pathbuf ++ parents) last,
        subst (λ d. Adds d state.files after.files) is_dir a,
      )
