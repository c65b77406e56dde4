-- ===== src/Project/Preimage.antt =====
-- The text that is hashed does not depend on the order in which the files are found, and tells the
-- files apart.
use cargo_stylus.Common.{
  ℕ, ◌<◌, ◌^◌, ◌≡◌, refl, sym, ap, ◌∙◌, Option, none, some, List, [], ◌∷◌, ◌++◌, length, take, drop,
  take-append, drop-append, length-append, All, arith, ◌≢◌,
}
use mathlib.Core.List.Permᴰ
use mathlib.Core.List.{Permᴰ, append_assoc}
use cargo_stylus.Common.Outcome
use cargo_stylus.Common.Outcome.{Outcome, ok, err, panic, out_of_fuel}
use cargo_stylus.Common.Bytes.{
  Bytes, to_be_bytes, length-to_be_bytes, from_be_bytes, from_be_bytes-to_be_bytes, Fits-of_lt,
}
use cargo_stylus.Common.Order.{sort-Permᴰ}
use cargo_stylus.Rpc.{Failure, build_failed}
use cargo_stylus.Project.{
  PathBuf, path_order, as_os_str, preimage, read_file_preimage, read_all, OptLevel, hash_files,
}

-- The hash is the same in whatever order the directories are read.
pub hash_files-Permᴰ :
    (keccak256 : Bytes → Bytes) (read : PathBuf → Option Bytes) (toolchain_file : PathBuf)
    (version : Bytes) (opt_level : OptLevel) (found found' : List PathBuf)
    → Permᴰ found found'
    → hash_files keccak256 read toolchain_file version opt_level (ok found)
      ≡ hash_files keccak256 read toolchain_file version opt_level (ok found')
unfolding hash_files
hash_files-Permᴰ keccak256 read toolchain_file version opt_level found found' p =
    rw (sort-Permᴰ path_order (Permᴰ.append_right (toolchain_file ∷ []) p)) refl

-- A file: its name and its contents.
abbrev pub File : Type 0
File = Bytes × Bytes

abbrev pub preimages : List File → Bytes
preimages [] = []
preimages (f ∷ files) = preimage f.0 f.1 ++ preimages files

abbrev pub IsShort : File → Type 0
IsShort f = (length f.0 < 256 ^ 8) × (length f.1 < 256 ^ 8)

-- A text behind its length is told apart from what follows.
framed_apart :
    (a b xs ys : Bytes)
    → length a < 256 ^ 8
    → length b < 256 ^ 8
    → to_be_bytes 8 (length a) ++ (a ++ xs) ≡ to_be_bytes 8 (length b) ++ (b ++ ys)
    → (a ≡ b) × (xs ≡ ys)
framed_apart a b xs ys h k e =
    let la = length-to_be_bytes 8 (length a) in
    let lb = length-to_be_bytes 8 (length b) in
    let heads : to_be_bytes 8 (length a) ≡ to_be_bytes 8 (length b) =
      sym (take-append 8 _ (a ++ xs) la) ∙ ap (take 8) e ∙ take-append 8 _ (b ++ ys) lb in
    let n : length a ≡ length b =
      sym (from_be_bytes-to_be_bytes 8 (length a) (Fits-of_lt 8 (length a) h))
      ∙ ap from_be_bytes heads
      ∙ from_be_bytes-to_be_bytes 8 (length b) (Fits-of_lt 8 (length b) k) in
    let tails : a ++ xs ≡ b ++ ys =
      sym (drop-append 8 _ (a ++ xs) la) ∙ ap (drop 8) e ∙ drop-append 8 _ (b ++ ys) lb in
    (
      sym (take-append (length b) a xs n)
          ∙ ap (take (length b)) tails
          ∙ take-append (length b) b ys refl,
      sym (drop-append (length b) a xs n)
          ∙ ap (drop (length b)) tails
          ∙ drop-append (length b) b ys refl,
    )

-- The preimage of a file with what follows it, taken apart
split_preimage :
    (f : File) (rest : Bytes)
    → preimage f.0 f.1 ++ rest
      ≡ to_be_bytes 8 (length f.0) ++ (f.0 ++ (to_be_bytes 8 (length f.1) ++ (f.1 ++ rest)))
unfolding preimage
split_preimage f rest =
    append_assoc (to_be_bytes 8 (length f.0)) _ rest
    ∙ ap (λ l. to_be_bytes 8 (length f.0) ++ l)
        (append_assoc f.0 _ rest
          ∙ ap (λ l. f.0 ++ l) (append_assoc (to_be_bytes 8 (length f.1)) f.1 rest))

preimage_nonempty : (f : File) (rest : Bytes) → [] ≢ preimage f.0 f.1 ++ rest
preimage_nonempty f rest e =
    let n : length {A = ℕ} [] ≡ length (preimage f.0 f.1 ++ rest) = ap length e in
    omega (
      arith,
      n,
      ap length (split_preimage f rest),
      length-append (to_be_bytes 8 (length f.0))
          (f.0 ++ (to_be_bytes 8 (length f.1) ++ (f.1 ++ rest))),
      length-to_be_bytes 8 (length f.0),
    )

preimages_injective :
    (files files' : List File)
    → All IsShort files
    → All IsShort files'
    → preimages files ≡ preimages files'
    → files ≡ files'
preimages_injective [] [] h k e = refl
preimages_injective [] (g ∷ files') h k e = absurd (preimage_nonempty g (preimages files') e)
preimages_injective (f ∷ files) [] h k e = absurd (preimage_nonempty f (preimages files) (sym e))
preimages_injective (f ∷ files) (g ∷ files') h k e =
    let e' = sym (split_preimage f (preimages files)) ∙ e ∙ split_preimage g (preimages files') in
    let (names, rest) = framed_apart f.0 g.0 _ _ h.0.0 k.0.0 e' in
    let (contents, more) = framed_apart f.1 g.1 _ _ h.0.1 k.0.1 rest in
    let same : files ≡ files' = preimages_injective files files' h.1 k.1 more in
    cc (names, contents, same)

abbrev pub contents_of : Option Bytes → Bytes
contents_of none = []
contents_of (some b) = b

-- The names and contents that a project's paths stand for
abbrev pub files_of : (PathBuf → Option Bytes) → List PathBuf → List File
files_of read [] = []
files_of read (p ∷ ps) = (as_os_str p, contents_of (read p)) ∷ files_of read ps

-- The text of the first file and of the rest, where both are read
first_and_rest :
    (found : Option Bytes) (rest : Outcome Failure Bytes) (filename tail b : Bytes)
    → ((t : Bytes) → rest ≡ ok t → t ≡ tail)
    → Outcome.◌>>=◌
        (Outcome.◌>>=◌ (Outcome.ok_or build_failed found) (λ c. ok (preimage filename c)))
        (λ x. Outcome.◌>>=◌ rest (λ more. ok (x ++ more)))
      ≡ ok b
    → b ≡ preimage filename (contents_of found) ++ tail
first_and_rest none rest filename tail b k h = cc h
first_and_rest (some c) (ok t) filename tail b k h = cc (h, k t refl)
first_and_rest (some c) (err e) filename tail b k h = cc h
first_and_rest (some c) panic filename tail b k h = cc h
first_and_rest (some c) out_of_fuel filename tail b k h = cc h

read_all-preimages :
    (read : PathBuf → Option Bytes) (ps : List PathBuf) (b : Bytes)
    → read_all read ps ≡ ok b
    → b ≡ preimages (files_of read ps)
unfolding read_all read_file_preimage
read_all-preimages read [] b h = cc h
read_all-preimages read (p ∷ ps) b h =
    first_and_rest (read p) (read_all read ps) (as_os_str p) _ b (read_all-preimages read ps) h

-- Two projects whose hashed texts agree, with names and contents shorter than 2^64 bytes, have the
-- same files: no part of a name or of a file can be moved over into another without changing the
-- text.
pub read_all_injective :
    (read read' : PathBuf → Option Bytes) (ps ps' : List PathBuf) (b : Bytes)
    → All IsShort (files_of read ps)
    → All IsShort (files_of read' ps')
    → read_all read ps ≡ ok b
    → read_all read' ps' ≡ ok b
    → files_of read ps ≡ files_of read' ps'
read_all_injective read read' ps ps' b h k e e' =
    preimages_injective (files_of read ps) (files_of read' ps') h k
      (sym (read_all-preimages read ps b e) ∙ read_all-preimages read' ps' b e')
