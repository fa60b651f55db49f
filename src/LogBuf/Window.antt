-- ===== src/LogBuf/Window.antt =====
-- The ring holds the newest lines of the whole history, numbered without a gap, and a reader who
-- asks often enough misses none.
use mathlib.Core.Path.{subst}
use native.Mathlib.Nat.{le_refl}
use yzj_bot_bridge.Prelude.{
  ℕ, suc, ◌+◌, ◌-◌, ◌≤◌, String, ◌≡◌, refl, sym, ap, ◌∙◌, inl, inr, Option, none, some, List, [],
  ◌∷◌, ◌++◌, append-nil, append_assoc, arith, ltb, Bool-cases, not-ltb-le, length, drop, All,
  length-append, length-drop, drop-nil, drop-drop, drop-append_short, All-drop,
}
use yzj_bot_bridge.LogBuf.Bot.{Line}
use yzj_bot_bridge.LogBuf.{
  Buffer, Now, Files, new_with_dir, line_of, push_line, persist_locked, write_line, append, since,
}

-- One call of Append.
pub record Entry : Type 0 where
  pub now : Now
  pub files : Files
  pub level : String
  pub bot : String
  pub message : String

pub append_entry : Buffer → Entry → Buffer × Line
append_entry b e =
    let (b', line, disk) = append b e.now e.files e.level e.bot e.message in (b', line)

-- Calls one after the other, with the lines that they return.
pub append_all : Buffer → List Entry → Buffer × List Line
append_all b [] = (b, [])
append_all b (e ∷ es) =
    let (b', line) = append_entry b e in let (b'', lines) = append_all b' es in (b'', line ∷ lines)

-- The newest so many items.
abbrev pub newest : ℕ → List Line → List Line
newest cap xs = drop (length xs - cap) xs

push_line-eq-newest :
    (cap : ℕ) (lines : List Line) (line : Line)
    → push_line cap lines line ≡ newest cap (lines ++ line ∷ [])
unfolding push_line
push_line-eq-newest cap lines line = elim (Bool-cases (ltb cap (length (lines ++ line ∷ [])))) [
  | inl over ↦ rw over
  | inr room ↦ rw (
    room,
    sub_of_le (length (lines ++ line ∷ [])) cap (not-ltb-le cap (length (lines ++ line ∷ [])) room),
  )
]
  where
    sub_of_le : (a b : ℕ) → a ≤ b → a - b ≡ 0
    sub_of_le a b h = omega arith

write_line-same :
    (b : Buffer) (f : Files) (line : Line) (o : Option String)
    → ((write_line b f line o).0.lines ≡ b.lines)
      × ((write_line b f line o).0.seq ≡ b.seq)
      × ((write_line b f line o).0.cap ≡ b.cap)
unfolding write_line
write_line-same b f line none = (refl, refl, refl)
write_line-same b f line (some path) = (refl, refl, refl)

-- Writing to the file leaves the ring alone.
persist_locked-same :
    (b : Buffer) (now : Now) (f : Files) (line : Line)
    → ((persist_locked b now f line).0.lines ≡ b.lines)
      × ((persist_locked b now f line).0.seq ≡ b.seq)
      × ((persist_locked b now f line).0.cap ≡ b.cap)
unfolding persist_locked
persist_locked-same b now f line = ground arith

-- What one call of Append does to the ring, and the number of its line.
record Appended (b b' : Buffer) (line : Line) : Type 0 where
  ring : b'.lines ≡ newest b.cap (b.lines ++ line ∷ [])
  counted : b'.seq ≡ b.seq + 1
  numbered : line.seq ≡ b.seq + 1
  same_cap : b'.cap ≡ b.cap

append_entry-Appended :
    (b : Buffer) (e : Entry) → Appended b (append_entry b e).0 (append_entry b e).1
unfolding append_entry append line_of
append_entry-Appended b e =
    let line = line_of b e.now e.level e.bot e.message in
    let b' : Buffer = record b { seq = b.seq + 1; lines = push_line b.cap b.lines line } in
    let (lines, seq, cap) = persist_locked-same b' e.now e.files line in
    record {
      ring = lines ∙ push_line-eq-newest b.cap b.lines line;
      counted = seq;
      numbered = refl;
      same_cap = cap;
    }

cut_twice :
    (cap : ℕ) (xs : List Line) (line : Line)
    → newest cap (newest cap xs ++ line ∷ []) ≡ newest cap (xs ++ line ∷ [])
cut_twice cap xs line =
    let n = length xs - cap in
    let joined : drop n xs ++ line ∷ [] ≡ drop n (xs ++ line ∷ []) =
      sym (drop-append_short n xs (line ∷ []) (omega arith)) in
    rw (joined, drop-drop (length (drop n (xs ++ line ∷ [])) - cap) n (xs ++ line ∷ []))
      (ap (λ k. drop k (xs ++ line ∷ []))
        (omega (arith, length-drop n (xs ++ line ∷ []), length-append xs (line ∷ []))))

ring-append_all :
    (b : Buffer) (es : List Entry) (old : List Line)
    → b.lines ≡ newest b.cap old
    → (append_all b es).0.lines ≡ newest b.cap (old ++ (append_all b es).1)
unfolding append_all
ring-append_all b [] old h = rw (append-nil old) h
ring-append_all b (e ∷ es) old h =
    let a = append_entry-Appended b e in
    let b' = (append_entry b e).0 in
    let line = (append_entry b e).1 in
    let ring : b'.lines ≡ newest b.cap (old ++ line ∷ []) =
      a.ring ∙ (ap (λ xs. newest b.cap (xs ++ line ∷ [])) h ∙ cut_twice b.cap old line) in
    rw (sym (append_assoc old (line ∷ []) (append_all b' es).1)) (
      subst
        (λ c. (append_all b' es).0.lines ≡ newest c ((old ++ line ∷ []) ++ (append_all b' es).1))
        a.same_cap
        (ring-append_all b' es (old ++ line ∷ [])
          (ring ∙ ap (λ c. newest c (old ++ line ∷ [])) (sym a.same_cap))))

-- The numbers of the lines count up from the one behind the given number.
abbrev pub Numbered : ℕ → List Line → Type 0
Numbered n [] = Unit
Numbered n (l ∷ ls) = (l.seq ≡ n + 1) × Numbered (n + 1) ls

Numbered-append_all : (b : Buffer) (es : List Entry) → Numbered b.seq (append_all b es).1
unfolding append_all
Numbered-append_all b [] = tt
Numbered-append_all b (e ∷ es) =
    let a = append_entry-Appended b e in
    (
      a.numbered,
      subst (λ n. Numbered n (append_all (append_entry b e).0 es).1) a.counted
          (Numbered-append_all (append_entry b e).0 es),
    )

append_all-count :
    (b : Buffer) (es : List Entry)
    → ((append_all b es).0.seq ≡ b.seq + length es)
      × ((append_all b es).0.cap ≡ b.cap)
      × (length (append_all b es).1 ≡ length es)
unfolding append_all
append_all-count b [] = (omega arith, refl, refl)
append_all-count b (e ∷ es) =
    let a = append_entry-Appended b e in
    let (seq, cap, count) = append_all-count (append_entry b e).0 es in
    (omega (arith, a.counted), cap ∙ a.same_cap, ap suc count)

Numbered-le :
    (n m : ℕ) (ls : List Line) → n + length ls ≤ m → Numbered n ls → All (λ l. l.seq ≤ m) ls
Numbered-le n m [] h a = tt
Numbered-le n m (l ∷ ls) h a = (omega arith, Numbered-le (n + 1) m ls (omega arith) a.1)

since_old : (n : ℕ) (ls : List Line) → All (λ l. l.seq ≤ n) ls → since ls n "" ≡ []
unfolding since
since_old n [] a = refl
since_old n (l ∷ ls) a = ground (arith, since_old n ls a.1)

since_new : (n m : ℕ) (ls : List Line) → m ≤ n → Numbered n ls → since ls m "" ≡ ls
unfolding since
since_new n m [] h a = refl
since_new n m (l ∷ ls) h a = ground (arith, since_new (n + 1) m ls)

since-append :
    (xs ys : List Line) (n : ℕ) (bot : String)
    → since (xs ++ ys) n bot ≡ since xs n bot ++ since ys n bot
unfolding since
since-append [] ys n bot = refl
since-append (x ∷ xs) ys n bot = ground (arith, since-append xs ys n bot)

module _ (capacity : ℕ) (dir : String) where
  abbrev history : List Entry → Buffer × List Line
  history es = append_all (new_with_dir capacity dir) es

  -- After any calls of Append the ring holds the newest of the lines that they returned, as many
  -- as its capacity (all of them, while there are fewer), in order; the lines are numbered from 1
  -- without a gap, and the counter has the number of the last.
  pub ring_history :
      (es : List Entry)
      → ((history es).0.lines ≡ newest (new_with_dir capacity dir).cap (history es).1)
        × Numbered 0 (history es).1
        × ((history es).0.seq ≡ length es)
  unfolding new_with_dir
  ring_history es = (
    ring-append_all (new_with_dir capacity dir) es []
        (sym (drop-nil (0 - (new_with_dir capacity dir).cap))),
    Numbered-append_all (new_with_dir capacity dir) es,
    omega (arith, (append_all-count (new_with_dir capacity dir) es).0),
  )

  -- A reader who asks for the lines since the last number it knows gets exactly the lines appended
  -- since then, in order, if these are no more than the capacity.
  pub since-history :
      (es new_es : List Entry)
      → length new_es ≤ (new_with_dir capacity dir).cap
      → let b = (history es).0 in
        since (append_all b new_es).0.lines b.seq "" ≡ (append_all b new_es).1
  since-history es new_es room =
      let b0 = new_with_dir capacity dir in
      let b = (history es).0 in
      let xs = (history es).1 in
      let ys = (append_all b new_es).1 in
      let (ring, numbers, seq) = ring_history es in
      let (seq1, cap1, len1) = append_all-count b0 es in
      let (seq2, cap2, len2) = append_all-count b new_es in
      let n = length (xs ++ ys) - b0.cap in
      let final : (append_all b new_es).0.lines ≡ newest b0.cap (xs ++ ys) =
        subst (λ c. (append_all b new_es).0.lines ≡ newest c (xs ++ ys)) cap1
          (ring-append_all b new_es xs (rw cap1 ring)) in
      let split : newest b0.cap (xs ++ ys) ≡ drop n xs ++ ys =
        drop-append_short n xs ys (omega (arith, length-append xs ys)) in
      let old : since (drop n xs) b.seq "" ≡ [] =
        since_old b.seq (drop n xs)
          (All-drop (λ l. l.seq ≤ b.seq) n xs (Numbered-le 0 b.seq xs (omega arith) numbers)) in
      let fresh : since ys b.seq "" ≡ ys =
        since_new b.seq b.seq ys (le_refl b.seq) (Numbered-append_all b new_es) in
      rw (final, split, since-append (drop n xs) ys b.seq "", old, fresh)
