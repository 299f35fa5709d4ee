-- ===== src/Files/Modes.antt =====
-- The modes of files: sflags() of libraries/EpoxyFS/src/FSImpl.cpp and rsflags() of EpoxyFS.cpp.
use epoxy_duino.Base.{ℕ, ◌≡◌, ◌≢◌, [], ◌∷◌, some, take}
use native.Mathlib.Omega.{arith}
use epoxy_duino.Base.Text.{Bytes, All}
use epoxy_duino.Files.{sflags, rsflags}

-- A mode that sflags() accepts is, in its first two bytes, what rsflags() makes of the flags; the text
-- has no NUL in it.
pub rsflags-sflags :
    (mode : Bytes) (om am : ℕ)
    → All (λ c. c ≢ 0) mode
    → sflags mode ≡ some (om, am)
    → rsflags om am ≡ take 2 mode
unfolding sflags rsflags
rsflags-sflags [] om am solid h = ground (arith, h)
rsflags-sflags (c ∷ []) om am solid h = ground (arith, h)
rsflags-sflags (c ∷ d ∷ cs) om am (a, (b, solid)) h = ground (arith, h, b)
