-- ===== src/Jobs/Contexts.antt =====
-- The context of a slot: made earlier, and still cancellable exactly while it is not cancelled.
use yzj_bot_bridge.Prelude.{
  ℕ, suc, ◌<◌, ◌≡◌, ◌≢◌, Bool, true, false, Option, none, some, arith, if◌then◌else◌, nat_eq,
}

-- A slot holds a context that was made, and can cancel it exactly while it is not cancelled.
abbrev pub Armed : ℕ → (ℕ → Bool) → Option ℕ → Option ℕ → Type 0
Armed n f none d = ⊥
Armed n f (some c) none = (c < n) × (f c ≡ true)
Armed n f (some c) (some d) = (c < n) × (d ≡ c) × (f c ≡ false)

pub Armed-mono : (n : ℕ) (f : ℕ → Bool) (c d : Option ℕ) → Armed n f c d → Armed (suc n) f c d
Armed-mono n f none d h = h
Armed-mono n f (some c) none h = (omega arith, h.1)
Armed-mono n f (some c) (some d) h = (omega arith, h.1, h.2)

pub Armed-lt : (n : ℕ) (f : ℕ → Bool) (c : ℕ) (d : Option ℕ) → Armed n f (some c) d → c < n
Armed-lt n f c none h = h.0
Armed-lt n f c (some d) h = h.0

abbrev pub set_cancelled : ℕ → (ℕ → Bool) → ℕ → Bool
set_cancelled c f d = if nat_eq c d then true else f d

pub Armed-cancel :
    (n : ℕ) (f : ℕ → Bool) (x : Option ℕ) (d : ℕ)
    → Armed n f x (some d)
    → (x ≡ some d) × (d < n) × Armed n (set_cancelled d f) x none
Armed-cancel n f none d h = absurd h
Armed-cancel n f (some c) d h = (ground arith, omega arith, (h.0, ground arith))

pub Armed-cancel_other :
    (n : ℕ) (f : ℕ → Bool) (x y : Option ℕ) (d : ℕ)
    → x ≢ some d
    → Armed n f x y
    → Armed n (set_cancelled d f) x y
Armed-cancel_other n f none y d h a = a
Armed-cancel_other n f (some c) none d h a = (a.0, ground arith)
Armed-cancel_other n f (some c) (some e) d h a = (a.0, a.1, ground arith)
