-- ===== src/Jobs/Scopes.antt =====
-- The keys of the queues: which bots and users share a line.
use Prim.Native.Char.{code}
use text.Mathlib.TextLemmas.{cons-eq-cons}
use mathlib.Core.Path.{ap₂}
use yzj_bot_bridge.Prelude.{
  String, ◌≡◌, refl, sym, ap, ◌≢◌, ◌⊎◌, inl, inr, Bool, true, false, arith, concat,
}
use yzj_bot_bridge.Jobs.{scope_key}

-- A text without the character that separates the parts of a key.
abbrev pub Plain : String → Type 0
Plain String.[] = Unit
Plain (String.◌∷◌ c s) = (code c ≢ 0) × Plain s

split_key :
    (a b x y : String)
    → Plain a
    → Plain b
    → concat a (concat "\0" x) ≡ concat b (concat "\0" y)
    → (a ≡ b) × (x ≡ y)
unfolding concat
split_key String.[] String.[] x y pa pb h = (refl, (cons-eq-cons.0 h).1)
split_key String.[] (String.◌∷◌ d b) x y pa pb h =
    absurd (pb.0 (sym (ap code (cons-eq-cons.0 h).0)))
split_key (String.◌∷◌ c a) String.[] x y pa pb h = absurd (pa.0 (ap code (cons-eq-cons.0 h).0))
split_key (String.◌∷◌ c a) (String.◌∷◌ d b) x y pa pb h =
    let (heads, tails) = cons-eq-cons.0 h in
    let (same, rest) = split_key a b x y pa.1 pb.1 tails in
    (ap₂ (λ e s. String.◌∷◌ e s) heads same, rest)

-- Two calls meet in one queue only if they are for one bot, both per channel or both per user, and
-- then for one user, as long as the ids of the bots hold no NUL character.
pub scope_key_inj :
    (bot bot' user user' : String) (channel channel' : Bool)
    → Plain bot
    → Plain bot'
    → scope_key bot user channel ≡ scope_key bot' user' channel'
    → (channel ≡ channel') × (bot ≡ bot') × ((channel ≡ true) ⊎ (user ≡ user'))
unfolding scope_key concat
scope_key_inj bot bot' user user' true true p p' h =
    (refl, (cons-eq-cons.0 (cons-eq-cons.0 (cons-eq-cons.0 h).1).1).1, inl refl)
scope_key_inj bot bot' user user' true false p p' h =
    absurd (omega (arith, ap code (cons-eq-cons.0 h).0))
scope_key_inj bot bot' user user' false true p p' h =
    absurd (omega (arith, ap code (cons-eq-cons.0 h).0))
scope_key_inj bot bot' user user' false false p p' h =
    let (same, rest) = split_key bot bot' user user' p p' (cons-eq-cons.0 (cons-eq-cons.0 h).1).1 in
    (refl, same, inr rest)
