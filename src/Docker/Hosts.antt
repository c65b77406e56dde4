-- ===== src/Docker/Hosts.antt =====
-- On which hosts a command runs in a container (`verify_valid_host`, main/src/docker.rs).
use cargo_stylus.Common.{
  ◌≡◌, refl, ◌≢◌, ◌⊎◌, inl, inr, ◌↔◌, String, true, ◌||◌, Option, none, some, Bool-cases, arith,
}
use cargo_stylus.Common.Text.{str_eq, contains, eq_iff, str_apart}
use cargo_stylus.Common.Occurs.{Occurs, contains_iff, not_contains}
use cargo_stylus.Common.Outcome.{ok, err}
use cargo_stylus.Docker.{
  Failure, no_os_type, no_kernel_version, windows_without_wsl, verify_valid_host,
}

-- The host is not Windows, or its kernel is that of WSL.
abbrev pub IsSupported : (os_type os_release : Option String) → Type 0
IsSupported os_type os_release =
    (os : String) × (os_type ≡ some os)
    × ((os ≢ "Windows")
        ⊎ (kernel : String) × (os_release ≡ some kernel)
          × (Occurs "microsoft" kernel ⊎ Occurs "WSL" kernel))

-- Why a host is refused
pub data IsRefused (os_type os_release : Option String) : Failure → Type 0 where
  unknown_os : os_type ≡ none → IsRefused os_type os_release no_os_type
  unknown_kernel :
      os_type ≡ some "Windows" → os_release ≡ none → IsRefused os_type os_release no_kernel_version
  without_wsl :
      (kernel : String)
      → os_type ≡ some "Windows"
      → os_release ≡ some kernel
      → ¬ Occurs "microsoft" kernel
      → ¬ Occurs "WSL" kernel
      → IsRefused os_type os_release windows_without_wsl

wsl_iff :
    (kernel : String)
    → ((contains kernel "microsoft" || contains kernel "WSL") ≡ true)
      ↔ (Occurs "microsoft" kernel ⊎ Occurs "WSL" kernel)
wsl_iff kernel = (
  λ h. elim (Bool-cases (contains kernel "microsoft")) [
    | inl t ↦ inl ((contains_iff kernel "microsoft").0 t)
    | inr f ↦ inr ((contains_iff kernel "WSL").0 (rw f at h))
  ],
  λ o. elim o [
    | inl m ↦ rw ((contains_iff kernel "microsoft").1 m) refl
    | inr w ↦
        let t = (contains_iff kernel "WSL").1 w in
        elim (Bool-cases (contains kernel "microsoft")) [
          | inl m ↦ rw m refl
          | inr f ↦ rw (f, t) refl
        ]
  ],
)

-- The hosts that pass
pub verify_valid_host_iff :
    (os_type os_release : Option String)
    → (verify_valid_host os_type os_release ≡ ok tt) ↔ IsSupported os_type os_release
unfolding verify_valid_host
verify_valid_host_iff none os_release = (λ h. absurd (ground arith), λ (os, e, h). absurd (cc e))
verify_valid_host_iff (some os) os_release = (
  λ h. elim (Bool-cases (str_eq os "Windows")) [
    | inl w ↦ (os, refl, inr (kernel_of os_release (rw w at h)))
    | inr n ↦ (os, refl, inl (str_apart os "Windows" n))
  ],
  λ (os', e, ways). elim (Bool-cases (str_eq os "Windows")) [
    | inr n ↦ rw n refl
    | inl w ↦ elim ways [
      | inl n ↦ absurd (n (cc ((eq_iff os "Windows").0 w, e)))
      | inr (kernel, k, o) ↦ rw (w, k, (wsl_iff kernel).1 o) refl
    ]
  ],
)
  where
    kernel_of :
        (os_release : Option String)
        → verify_valid_host (some "Windows") os_release ≡ ok tt
        → (kernel : String) × (os_release ≡ some kernel)
          × (Occurs "microsoft" kernel ⊎ Occurs "WSL" kernel)
    kernel_of none h = absurd (ground arith)
    kernel_of (some kernel) h =
        elim (Bool-cases (contains kernel "microsoft" || contains kernel "WSL")) [
          | inl t ↦ (kernel, refl, (wsl_iff kernel).0 t)
          | inr f ↦ absurd (cc (rw f at h))
        ]

-- What a host that is refused is told
pub IsRefused-verify_valid_host :
    (os_type os_release : Option String) (e : Failure)
    → IsRefused os_type os_release e
    → verify_valid_host os_type os_release ≡ err e
unfolding verify_valid_host
IsRefused-verify_valid_host os_type os_release e (unknown_os h) = rw h refl
IsRefused-verify_valid_host os_type os_release e (unknown_kernel h k) = rw (h, k) refl
IsRefused-verify_valid_host os_type os_release e (without_wsl kernel h k m w) =
    rw (h, k, not_contains kernel "microsoft" m, not_contains kernel "WSL" w) refl
