-- ===== src/Commands/Mentions.antt =====
-- That a mention in a message reaches the bot it is of.
use yzj_bot_bridge.Prelude.{
  ℕ, String, ◌≡◌, refl, sym, ap, ◌∙◌, ◌≢◌, inl, inr, Bool, true, false, ◌||◌, Option, none, some,
  List, [], ◌∷◌, arith, eq_iff, ◌==◌, if◌then◌else◌, Bool-cases, Option-cases, ==_of_ne, ==_of_eq,
  equal_fold,
}
use yzj_bot_bridge.Bots.{Config}
use yzj_bot_bridge.Commands.Patterns.{find_all, mention_pattern}
use yzj_bot_bridge.Registry.{has_id, mentioned, resolve, resolve_mention}
use yzj_bot_bridge.Commands.{mentions_one, message_targets_bot}

later_hit : (p q r t : Bool) → t ≡ true → (p || q || r || t) ≡ true
later_hit p q r t h = ground arith

first_hit : (p q r t : Bool) → p ≡ true → (p || q || r || t) ≡ true
first_hit p q r t h = ground arith

-- The bot is among those a mention resolves to, whichever was there before it.
on_found :
    (b c : Config) (known : Bool) (skip keep : List Config) (seen : List String)
    → has_id seen c.id ≡ known
    → has_id seen b.id ≡ false
    → (c.id ≢ b.id → mentions_one b skip ≡ true)
    → (c.id ≢ b.id → mentions_one b keep ≡ true)
    → mentions_one b (if known then skip else c ∷ keep) ≡ true
unfolding mentions_one
on_found b c true skip keep seen k fresh of_skip of_keep =
    of_skip (λ e. false_true (sym fresh ∙ sym (ap (has_id seen) e) ∙ k))
  where
    false_true : false ≡ true → ⊥
    false_true e = cc
on_found b c false skip keep seen k fresh of_skip of_keep = elim (Bool-cases (c.id == b.id)) [
  | inl same ↦
      first_hit (c.id == b.id) (c.role_id == b.role_id) (equal_fold c.name b.name)
        (mentions_one b keep) same
  | inr other ↦
      later_hit (c.id == b.id) (c.role_id == b.role_id) (equal_fold c.name b.name)
        (mentions_one b keep) (of_keep (λ e. true_false (sym (==_of_eq c.id b.id e) ∙ other)))
]
  where
    true_false : true ≡ false → ⊥
    true_false e = cc

still_fresh :
    (c b : Config) (seen : List String)
    → c.id ≢ b.id
    → has_id seen b.id ≡ false
    → has_id (c.id ∷ seen) b.id ≡ false
unfolding has_id
still_fresh c b seen n fresh = rw (==_of_ne c.id b.id n) fresh

-- A token that does not resolve to the bot is not the one that does.
not_here :
    (find : String → Option Config) (b : Config) (x m : String) (ms : List String)
    → (x == m || has_id ms m) ≡ true
    → find m ≡ some b
    → find x ≢ some b
    → has_id ms m ≡ true
not_here find b x m ms h f n = elim (Bool-cases (x == m)) [
  | inl same ↦ let e : x ≡ m = ground (arith, eq_iff x m) in absurd (n (ap find e ∙ f))
  | inr other ↦ ground arith
]

-- A token of the message resolves to a bot: it is among the bots that the message mentions, unless
-- it was seen before.
one_of_mentioned :
    (find : String → Option Config) (seen ms : List String) (b : Config) (m : String)
    → has_id ms m ≡ true
    → find m ≡ some b
    → has_id seen b.id ≡ false
    → mentions_one b (mentioned find seen ms) ≡ true
unfolding has_id mentioned
one_of_mentioned find seen [] b m h f fresh = absurd (false_true h)
  where
    false_true : false ≡ true → ⊥
    false_true e = cc
one_of_mentioned find seen (x ∷ ms) b m h f fresh = elim (Option-cases (find x)) [
  | inl none_found ↦
      rw (mentioned, none_found)
        (one_of_mentioned find seen ms b m
          (not_here find b x m ms h f (λ e. none_some (sym none_found ∙ e))) f fresh)
  | inr (c, found) ↦
      let rest : c.id ≢ b.id → has_id ms m ≡ true =
        λ n. not_here find b x m ms h f (λ e. n (same_id (sym found ∙ e))) in
      rw (mentioned, found)
        (on_found b c (has_id seen c.id) (mentioned find seen ms) (mentioned find (c.id ∷ seen) ms)
          seen refl fresh (λ n. one_of_mentioned find seen ms b m (rest n) f fresh)
          (λ n.
            one_of_mentioned find (c.id ∷ seen) ms b m (rest n) f (still_fresh c b seen n fresh)))
]
  where
    none_some : none ≡ some b → ⊥
    none_some e = cc

    same_id : {c : Config} → some c ≡ some b → c.id ≡ b.id
    same_id {c} e = ap (λ o. elim o as (λ o. String) [ none ↦ "" | some d ↦ d.id ]) e

for_the_bot :
    (of : List Config) (receive : Config) (group_type : ℕ) (content : String)
    → mentions_one receive of ≡ true
    → message_targets_bot (λ c g. of) content receive group_type ≡ true
unfolding message_targets_bot mentions_one
for_the_bot [] receive group_type content h = absurd (false_true h)
  where
    false_true : false ≡ true → ⊥
    false_true e = cc
for_the_bot (b ∷ bs) receive group_type content h = h

-- A message that mentions a bot by a token that resolves to it in its group is for the bot.
pub mention_targets :
    (content token : String) (visited : List Config) (receive : Config) (group_type : ℕ)
    → has_id (find_all mention_pattern content) token ≡ true
    → resolve token receive.group visited ≡ some receive
    → message_targets_bot (λ c g. resolve_mention c g visited) content receive group_type ≡ true
unfolding message_targets_bot resolve_mention
mention_targets content token visited receive group_type h e =
    for_the_bot (resolve_mention content receive.group visited) receive group_type content (
      one_of_mentioned (λ t. resolve t receive.group visited) [] (find_all mention_pattern content)
        receive token h e refl)
