-- ===== src/YzjCli/Catchup.antt =====
-- gather finds every message behind the cursor, as long as they fit its budget of pages.
use mathlib.Core.Path.{subst}
use native.Mathlib.Decide.{dec_lt}
use yzj_bot_bridge.Prelude.{
  ℕ, zero, suc, ◌+◌, ◌-◌, ◌*◌, ◌≤◌, ◌<◌, String, ◌≡◌, refl, sym, ap, ◌∙◌, ◌≢◌, true, false, none,
  List, [], ◌∷◌, ◌++◌, append_assoc, arith, ltb, nat_eq, length, take, drop, All, length-append,
  length-drop, length-take-le, take-append-drop, drop-append_long, drop-append_short,
}
use yzj_bot_bridge.YzjCli.Message.{Message}
use yzj_bot_bridge.YzjCli.Watcher.{
  Answer, page, Watcher, index_of_msg, dedupe_msgs, gathered, first_id, gather_older, catchup,
  gather,
}
use yzj_bot_bridge.YzjCli.Gather.{
  NoId, Uniq, last_page, Serves, Uniq-right, All-right, All-left, index_of_msg-none,
  index_of_msg-last, drop-after, dedupe_msgs-Uniq,
}

last_page-short :
    (xs ys : List Message) (m : Message)
    → length ys < 20
    → last_page (xs ++ m ∷ ys) ≡ drop (length (xs ++ m ∷ ys) - 20) xs ++ m ∷ ys
last_page-short xs ys m h =
    drop-append_short (length (xs ++ m ∷ ys) - 20) xs (m ∷ ys)
      (omega (arith, length-append xs (m ∷ ys)))

last_page-long :
    (xs ys : List Message) (m : Message) → 20 ≤ length ys → last_page (xs ++ m ∷ ys) ≡ last_page ys
last_page-long xs ys m h =
    ap (λ n. drop n (xs ++ m ∷ ys))
      (let e : length (xs ++ m ∷ ys) - 20 ≡ length xs + suc (length ys - 20) =
          omega (arith, length-append xs (m ∷ ys)) in
        e)
    ∙ drop-append_long (suc (length ys - 20)) xs (m ∷ ys)

length-last_page : (ys : List Message) → 20 ≤ length ys → length (last_page ys) ≡ 20
length-last_page ys h = omega (arith, length-drop (length ys - 20) ys)

-- A round that finds the cursor.
gather_older-hit :
    (old : String → Answer) (newest : List Message) (rounds : ℕ) (anchor : String)
    (older xs ys : List Message) (m : Message)
    → old anchor ≡ page (xs ++ m ∷ ys)
    → NoId m.msg_id ys
    → gather_older old m.msg_id newest (suc rounds) anchor older
      ≡ gathered (dedupe_msgs ((ys ++ older) ++ newest)) true
unfolding gather_older
gather_older-hit old newest rounds anchor older xs ys m e n =
    rw (e, gather_older, not_empty, index_of_msg-last xs ys m n, drop-after xs ys m)
  where
    not_empty : nat_eq (length (xs ++ m ∷ ys)) 0 ≡ false
    not_empty = ground (arith, length-append xs (m ∷ ys))

-- A round that does not, on a full page.
gather_older-miss :
    (old : String → Answer) (cursor : String) (newest : List Message) (rounds : ℕ) (anchor : String)
    (older prev : List Message)
    → old anchor ≡ page prev
    → length prev ≡ 20
    → NoId cursor prev
    → gather_older old cursor newest (suc rounds) anchor older
      ≡ gather_older old cursor newest rounds (first_id prev) (prev ++ older)
unfolding gather_older
gather_older-miss old cursor newest rounds anchor older prev e len n =
    rw (e, gather_older, not_empty, index_of_msg-none prev cursor n, full)
  where
    not_empty : nat_eq (length prev) 0 ≡ false
    not_empty = ground arith

    full : ltb (length prev) 20 ≡ false
    full = ground arith

pub drop-cons :
    (n : ℕ) (xs : List Message)
    → n < length xs
    → (p : Message) × (ps : List Message) × drop n xs ≡ p ∷ ps
drop-cons n [] h = absurd (omega arith)
drop-cons zero (x ∷ xs) h = (x, xs, refl)
drop-cons (suc n) (x ∷ xs) h = drop-cons n xs (omega arith)

-- The cursor is on the newest page.
gather-near :
    (w : Watcher) (old : String → Answer) (xs ys : List Message) (m : Message)
    → Uniq (m ∷ ys)
    → gather w old (xs ++ m ∷ ys) m.msg_id ≡ gathered ys true
unfolding gather
gather-near w old xs ys m u =
    rw (gather, index_of_msg-last xs ys m u.1, drop-after xs ys m, dedupe_msgs-Uniq ys u.2)

module _ (history newest : List Message) (old : String → Answer)
    (serves : Serves history newest old) (uniq : Uniq history) where
  Uniq-behind :
      (front back : List Message) (m : Message) → history ≡ front ++ m ∷ back → Uniq (m ∷ back)
  Uniq-behind front back m e = Uniq-right front (m ∷ back) (subst Uniq e uniq)

  -- The rounds, with the messages from the anchor on collected: the cursor is in front of them.
  gather_older_complete :
      (rounds : ℕ) (front back older rest : List Message) (m s : Message)
      → history ≡ front ++ m ∷ (back ++ s ∷ rest)
      → older ++ newest ≡ s ∷ rest
      → length back < 20 * rounds
      → gather_older old m.msg_id newest rounds s.msg_id older ≡ gathered (back ++ s ∷ rest) true
  unfolding first_id
  gather_older_complete zero front back older rest m s e acc h = absurd (omega arith)
  gather_older_complete (suc rounds) front back older rest m s e acc h =
      elim (dec_lt (length back) 20) [
        | yes near ↦
            gather_older-hit old newest rounds s.msg_id older
              (drop (length (front ++ m ∷ back) - 20) front) back m
              (served ∙ ap page (last_page-short front back m near)) no_id
            ∙ ap (λ ms. gathered ms true)
                (ap dedupe_msgs (append_assoc back older newest ∙ ap (λ l. back ++ l) acc)
                  ∙ dedupe_msgs-Uniq (back ++ s ∷ rest) behind_m.2)
        | no far ↦
            further far
              (λ b1 ps p.
                gather_older_complete rounds front b1 (p ∷ (ps ++ older)) (ps ++ s ∷ rest) m p)
              (drop-cons (length back - 20) back (omega arith))
      ]
    where
      behind_m : Uniq (m ∷ (back ++ s ∷ rest))
      behind_m = Uniq-behind front (back ++ s ∷ rest) m e

      no_id : NoId m.msg_id back
      no_id = All-left (λ x. x.msg_id ≢ m.msg_id) back (s ∷ rest) behind_m.1

      served : old s.msg_id ≡ page (last_page (front ++ m ∷ back))
      served =
          serves.older (front ++ m ∷ back) rest s
            (e ∙ sym (append_assoc front (m ∷ back) (s ∷ rest)))

      further :
          (length back < 20 → ⊥)
          → ((b1 ps : List Message)
              → (p : Message) → history ≡ front ++ m ∷ (b1 ++ p ∷ (ps ++ s ∷ rest))
              → (p ∷ (ps ++ older)) ++ newest ≡ p ∷ (ps ++ s ∷ rest)
              → length b1 < 20 * rounds
              → gather_older old m.msg_id newest rounds p.msg_id (p ∷ (ps ++ older))
                ≡ gathered (b1 ++ p ∷ (ps ++ s ∷ rest)) true)
          → ((p : Message) × (ps : List Message) × last_page back ≡ p ∷ ps)
          → gather_older old m.msg_id newest (suc rounds) s.msg_id older
            ≡ gathered (back ++ s ∷ rest) true
      further far again (p, ps, cut) =
          gather_older-miss old m.msg_id newest rounds s.msg_id older (p ∷ ps)
            (served ∙ ap page (last_page-long front back m (omega arith) ∙ cut))
            (sym (ap length cut) ∙ length-last_page back (omega arith))
            (All-right (λ x. x.msg_id ≢ m.msg_id) b1 (p ∷ ps)
              (subst (All (λ x. x.msg_id ≢ m.msg_id)) parts no_id))
          ∙ again b1 ps p (e ∙ ap (λ l. front ++ m ∷ l) whole)
              (ap (λ l. p ∷ l) (append_assoc ps older newest ∙ ap (λ l. ps ++ l) acc))
              (omega (arith, length-take-le (length back - 20) back))
          ∙ ap (λ l. gathered l true) (sym whole)
        where
          b1 : List Message
          b1 = take (length back - 20) back

          parts : back ≡ b1 ++ p ∷ ps
          parts = sym (take-append-drop (length back - 20) back) ∙ ap (λ l. b1 ++ l) cut

          whole : back ++ s ∷ rest ≡ b1 ++ p ∷ (ps ++ s ∷ rest)
          whole = ap (λ l. l ++ s ∷ rest) parts ∙ append_assoc b1 (p ∷ ps) (s ∷ rest)

  -- The cursor is in front of the newest page.
  gather-far :
      (w : Watcher) (front b1 ps : List Message) (m p : Message)
      → history ≡ front ++ m ∷ (b1 ++ p ∷ ps)
      → newest ≡ p ∷ ps
      → length b1 < 20 * catchup w.catchup_pages
      → gather w old newest m.msg_id ≡ gathered (b1 ++ p ∷ ps) true
  unfolding gather first_id
  gather-far w front b1 ps m p e page_is h =
      rw (gather, none_there, ap first_id page_is)
        (gather_older_complete (catchup w.catchup_pages) front b1 [] ps m p e page_is h)
    where
      none_there : index_of_msg newest m.msg_id ≡ none
      none_there = index_of_msg-none newest m.msg_id (
          subst (NoId m.msg_id) (sym page_is) (
            All-right (λ x. x.msg_id ≢ m.msg_id) b1 (p ∷ ps)
              (Uniq-behind front (b1 ++ p ∷ ps) m e).1))

  -- gather finds the cursor, on the newest page or behind it.
  pub gather_found :
      (w : Watcher) (front back : List Message) (m : Message)
      → history ≡ front ++ m ∷ back
      → length back < 20 * (catchup w.catchup_pages + 1)
      → gather w old newest m.msg_id ≡ gathered back true
  unfolding gather
  gather_found w front back m e h = elim (dec_lt (length back) 20) [
    | yes near ↦
        ap (λ l. gather w old l m.msg_id) (newest_is ∙ last_page-short front back m near)
        ∙ gather-near w old (drop (length (front ++ m ∷ back) - 20) front) back m behind_m
    | no far ↦ further far (drop-cons (length back - 20) back (omega arith))
  ]
    where
      newest_is : newest ≡ last_page (front ++ m ∷ back)
      newest_is = serves.first ∙ ap last_page e

      behind_m : Uniq (m ∷ back)
      behind_m = Uniq-behind front back m e

      further :
          (length back < 20 → ⊥)
          → ((p : Message) × (ps : List Message) × last_page back ≡ p ∷ ps)
          → gather w old newest m.msg_id ≡ gathered back true
      further far (p, ps, cut) =
          gather-far w front (take (length back - 20) back) ps m p
            (e ∙ ap (λ l. front ++ m ∷ l) parts)
            (newest_is ∙ last_page-long front back m (omega arith) ∙ cut)
            (omega (arith, length-take-le (length back - 20) back))
          ∙ ap (λ l. gathered l true) (sym parts)
        where
          parts : back ≡ take (length back - 20) back ++ p ∷ ps
          parts =
              sym (take-append-drop (length back - 20) back)
              ∙ ap (λ l. take (length back - 20) back ++ l) cut
