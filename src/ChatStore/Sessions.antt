-- ===== src/ChatStore/Sessions.antt =====
-- What the operations of the chat store do to its sessions and its file.
use mathlib.Core.Option
use mathlib.Core.Path.{subst}
use yzj_bot_bridge.Prelude.{
  ◌≤◌, String, ◌≡◌, refl, sym, ap, ◌∙◌, fun_ext, ◌≢◌, inl, inr, Bool, true, false, ◌&&◌, none, some,
  List, [], ◌∷◌, ◌++◌, map, append-nil, append_assoc, arith, eq_iff, leb, ◌==◌, if◌then◌else◌,
  Bool-cases, Option-cases, trim_space, join_fields, rune_count, first_runes,
  rune_count-first_runes, rune_count-concat,
}
use yzj_bot_bridge.ChatStore.{
  Message, Session, Store, save_locked, get, modify, change, title_from_content, stamped,
  append_all, append_messages,
}

append_all_id : (now : String) (ms : List Message) (s : Session) → (append_all now ms s).id ≡ s.id
unfolding append_all
append_all_id now [] s = refl
append_all_id now (m ∷ ms) s = append_all_id now ms (record s {
  messages = s.messages ++ stamped now m ∷ [];
  title =
      if m.role == "user" && trim_space s.title == ""
      then title_from_content m.content
      else s.title;
})

append_all_messages :
    (now : String) (ms : List Message) (s : Session)
    → (append_all now ms s).messages ≡ s.messages ++ map (stamped now) ms
unfolding append_all
append_all_messages now [] s = sym (append-nil s.messages)
append_all_messages now (m ∷ ms) s =
    append_all_messages now ms (record s {
      messages = s.messages ++ stamped now m ∷ [];
      title =
          if m.role == "user" && trim_space s.title == ""
          then title_from_content m.content
          else s.title;
    })
    ∙ append_assoc s.messages (stamped now m ∷ []) (map (stamped now) ms)

get-modify :
    (id k : String) (f : Session → Session) (ss : List Session)
    → ((s : Session) → (f s).id ≡ s.id)
    → get k (modify id f ss) ≡ (if id == k then Option.map f (get k ss) else get k ss)
unfolding get modify
get-modify id k f [] keeps = elim (Bool-cases (id == k)) [
  | inl same ↦ rw same refl
  | inr apart ↦ rw apart refl
]
get-modify id k f (s ∷ ss) keeps = elim (Bool-cases (s.id == id)) [
  | inl here ↦
      let e : s.id ≡ id = ground (arith, eq_iff s.id id) in
      rw here (
        subst
          (λ i. (if (f s).id == k then some (f s) else get k ss) ≡ (
            if i == k
            then Option.map f (if s.id == k then some s else get k ss)
            else (if s.id == k then some s else get k ss)))
          e
          (subst
            (λ t. (if t == k then some (f s) else get k ss) ≡ (
              if s.id == k
              then Option.map f (if s.id == k then some s else get k ss)
              else (if s.id == k then some s else get k ss)))
            (sym (keeps s)) (at_head (s.id == k))))
  | inr on ↦ rw on (elim (Bool-cases (s.id == k)) [
    | inl t ↦
        let apart : (id == k) ≡ false =
          ground (arith, eq_iff s.id k, eq_iff s.id id, eq_iff id k) in
        rw (t, apart) refl
    | inr u ↦ rw u (get-modify id k f ss keeps)
  ])
]
  where
    at_head :
        (b : Bool)
        → (if b then some (f s) else get k ss) ≡ (
            if b
            then Option.map f (if b then some s else get k ss)
            else (if b then some s else get k ss))
    at_head true = refl
    at_head false = refl

modify-absent :
    (id : String) (f : Session → Session) (ss : List Session)
    → get id ss ≡ none
    → modify id f ss ≡ ss
unfolding get modify
modify-absent id f [] h = refl
modify-absent id f (s ∷ ss) h = elim (Bool-cases (s.id == id)) [
  | inl here ↦ absurd (some_not_none s (sym (ap (λ b. if b then some s else get id ss) here) ∙ h))
  | inr on ↦ rw on (
      ap (λ l. s ∷ l)
        (modify-absent id f ss (sym (ap (λ b. if b then some s else get id ss) on) ∙ h)))
]
  where
    some_not_none : (s : Session) → some s ≢ none
    some_not_none s e = cc

change_sessions :
    (id : String) (f : Session → Session) (ok : Bool) (s : Store)
    → (change id f ok s).0.sessions ≡ modify id f s.sessions
unfolding change save_locked
change_sessions id f ok s = elim (Option-cases (get id s.sessions)) [
  | inl absent ↦ rw (change, absent) (sym (modify-absent id f s.sessions absent))
  | inr (old, there) ↦ elim (Bool-cases ok) [
    | inl written ↦ rw (change, there, written, save_locked) refl
    | inr failed ↦ rw (change, there, failed, save_locked) refl
  ]
]

-- The title of a session after messages: a title that is not blank stays, a blank one comes from the
-- first message of a user that gives one.
unfoldable pub titled : List Message → String → String
titled [] title = title
titled (m ∷ ms) title =
    if trim_space title == ""
    then titled ms (if m.role == "user" then title_from_content m.content else title)
    else title

titled_stays :
    (ms : List Message) (title : String)
    → (trim_space title == "") ≡ false
    → titled ms title ≡ title
unfolding titled
titled_stays [] title h = refl
titled_stays (m ∷ ms) title h = rw h refl

append_all_title :
    (now : String) (ms : List Message) (s : Session)
    → (append_all now ms s).title ≡ titled ms s.title
unfolding append_all titled
append_all_title now [] s = refl
append_all_title now (m ∷ ms) s =
    append_all_title now ms (record s {
      messages = s.messages ++ stamped now m ∷ [];
      title =
          if m.role == "user" && trim_space s.title == ""
          then title_from_content m.content
          else s.title;
    })
    ∙ go (trim_space s.title == "") (m.role == "user") refl
  where
    go :
        (b c : Bool)
        → (trim_space s.title == "") ≡ b
        → titled ms (if c && b then title_from_content m.content else s.title)
          ≡ (if b then titled ms (if c then title_from_content m.content else s.title) else s.title)
    go true true e = refl
    go true false e = refl
    go false true e = titled_stays ms s.title e
    go false false e = titled_stays ms s.title e

-- What AppendMessages makes of a session.
unfoldable pub with_messages : String → List Message → Session → Session
unfolding titled
with_messages now ms sess = record sess {
  messages = sess.messages ++ map (stamped now) ms;
  title = titled ms sess.title;
  updated_at = now;
}

append_all-rest :
    (now : String) (ms : List Message) (s : Session)
    → append_all now ms s
      ≡ record s { messages = (append_all now ms s).messages; title = (append_all now ms s).title }
unfolding append_all
append_all-rest now [] s = refl
append_all-rest now (m ∷ ms) s = append_all-rest now ms (record s {
  messages = s.messages ++ stamped now m ∷ [];
  title =
      if m.role == "user" && trim_space s.title == ""
      then title_from_content m.content
      else s.title;
})

appended :
    (now : String) (ms : List Message) (s : Session)
    → record (append_all now ms s) { updated_at = now } ≡ with_messages now ms s
unfolding with_messages
appended now ms s =
    ap at_now (append_all-rest now ms s)
    ∙ ap (λ l. with_these l (append_all now ms s).title) (append_all_messages now ms s)
    ∙ ap (λ l. with_these (s.messages ++ map (stamped now) ms) l) (append_all_title now ms s)
  where
    at_now : Session → Session
    at_now x = record x { updated_at = now }

    with_these : List Message → String → Session
    with_these l title = record s { messages = l; title = title; updated_at = now }

-- After AppendMessages the session with the id has the messages behind its own, each with a time, the
-- time of the call, and a title from the first of the new messages of a user that gives one, if its own
-- was blank; all else in it and every other session are as before, whether or not the file was written.
pub append_messages-get :
    (now id k : String) (ms : List Message) (ok : Bool) (s : Store)
    → get k (append_messages now id ms ok s).0.sessions
      ≡ (if id == k then Option.map (with_messages now ms) (get k s.sessions) else get k s.sessions)
unfolding append_messages
append_messages-get now id k ms ok s =
    ap (get k) (change_sessions id f ok s)
    ∙ get-modify id k f s.sessions (append_all_id now ms)
    ∙ ap (λ g. if id == k then Option.map g (get k s.sessions) else get k s.sessions)
        (fun_ext (appended now ms))
  where
    f : Session → Session
    f sess = record (append_all now ms sess) { updated_at = now }

-- A title that is made from a message has 41 characters at most, the mark of the cut included.
pub title_from_content_bound : (content : String) → rune_count (title_from_content content) ≤ 41
unfolding title_from_content rune_count
title_from_content_bound content = elim (Bool-cases (text == "")) [
  | inl blank ↦ rw (title_from_content, blank) (omega arith)
  | inr some_text ↦ elim (Bool-cases (leb (rune_count text) 40)) [
    | inl fits ↦ rw (title_from_content, some_text, fits) (ground arith)
    | inr long ↦
        rw (title_from_content, some_text, long)
          (omega
            (arith, rune_count-concat (first_runes 40 text) "…", rune_count-first_runes 40 text))
  ]
]
  where
    text : String
    text = trim_space (join_fields content)
