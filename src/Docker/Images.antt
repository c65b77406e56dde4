-- ===== src/Docker/Images.antt =====
-- Whether docker has an image (`image_exists`, main/src/docker.rs).
use cargo_stylus.Common.{
  ℕ, suc, ◌+◌, ◌≤◌, ◌≡◌, refl, ap, ◌∙◌, ◌↔◌, Bool, true, false, Bool-cases, inl, inr, Option, none,
  some, String, [], ◌∷◌, ◌++◌, ltb, ltb→lt, ◌==◌, arith,
}
use cargo_stylus.Common.Bytes.{Bytes}
use cargo_stylus.Common.Outcome.{ok}
use cargo_stylus.Docker.{count_lines, image_found}

-- Two line feeds stand in it.
abbrev pub HasTwoLines : Bytes → Type 0
HasTwoLines stdout =
    (header : Bytes) × (line : Bytes) × (rest : Bytes) × (stdout
      ≡ header ++ 10 ∷ (line ++ 10 ∷ rest))

split_line :
    (n : ℕ) (bytes : Bytes)
    → suc n ≤ count_lines bytes
    → (line : Bytes) × (rest : Bytes) × (bytes ≡ line ++ 10 ∷ rest) × (n ≤ count_lines rest)
unfolding count_lines
split_line n [] h = absurd (omega arith)
split_line n (b ∷ bytes) h = elim (Bool-cases (b == 10)) [
  | inl t ↦
      let same : b ≡ 10 = ground arith in
      let more : suc n ≤ 1 + count_lines bytes = rw t at h in
      ([], bytes, ap (λ x. x ∷ bytes) same, omega arith)
  | inr f ↦
      let (line, rest, e, more) = split_line n bytes (rw f at h) in
      (b ∷ line, rest, ap (λ l. b ∷ l) e, more)
]

line_counts : (line rest : Bytes) → suc (count_lines rest) ≤ count_lines (line ++ 10 ∷ rest)
unfolding count_lines
line_counts [] rest = omega arith
line_counts (b ∷ line) rest =
    let more = line_counts line rest in
    elim (Bool-cases (b == 10)) [ inl t ↦ rw t (omega arith) | inr f ↦ rw f more ]

two_lines_iff : (stdout : Bytes) → (2 ≤ count_lines stdout) ↔ HasTwoLines stdout
two_lines_iff stdout = (
  λ h.
      let (header, rest, e, more) = split_line 1 stdout h in
      let (line, last, e', more') = split_line 0 rest more in
      (header, line, last, e ∙ ap (λ x. header ++ 10 ∷ x) e'),
  λ (header, line, rest, e).
      let outer = line_counts header (line ++ 10 ∷ rest) in
      let inner = line_counts line rest in let same = ap count_lines e in omega arith,
)

-- An image is found exactly when docker succeeds and answers with two lines.
pub image_found_ok :
    (success : Bool) (stdout : Bytes) (stderr : Option String) (found : Bool)
    → image_found (record { success = success; stdout = stdout; stderr = stderr }) ≡ ok found
    → (success ≡ true) × ((found ≡ true) ↔ HasTwoLines stdout)
unfolding image_found
image_found_ok true stdout stderr found h =
    let is : found ≡ ltb 1 (count_lines stdout) = ground arith in
    (
      refl,
      (
        λ t. (two_lines_iff stdout).0 (ltb→lt 1 (count_lines stdout) (ground arith)),
        λ l. let enough = (two_lines_iff stdout).1 l in ground arith,
      ),
    )
image_found_ok false stdout none found h = absurd (ground arith)
image_found_ok false stdout (some stderr) found h = absurd (ground arith)
