-- ===== src/Cockpit/View/Expired.antt =====
-- What becomes of a message whose session has expired.
use open_pm.Common.{
  ℕ, String, none, some, List, [], ◌∷◌, ◌++◌, ◌≡◌, refl, ap, sym, ◌∙◌, subst, Bool, true, false,
  not, length, drop, get_elem?, arith, str_eq, eq_refl, Perm, Dict, has, insert, map, append-nil,
  ◌&◌, ◌otherwise◌, Bool-cases, inl, inr,
}
use mathlib.Core.List.Perm
use mathlib.Core.List.{perm_append_singleton, map-append}
use open_pm.Chat.Stream.{Completion, completed, auth_expired}
use open_pm.Chat.Session.{expired, step}
use open_pm.Auth.Pending.{
  PendingMessage, Storage, Taken, matching, is_of, taken_of, write_buffer, buffer_pending_message,
  take_pending_messages,
}
use open_pm.Auth.Pending.Take.{Distinct, take_pending_messages_lem, buffer_pending_message-Distinct}
use open_pm.Cockpit.View.{
  Cockpit, Sent, Stamp, on_complete, on_outputs, with_stream, hook_step, buffer_expired,
  messages_to_replay,
}

insert_fresh :
    (key : String) (v : PendingMessage) (m : Dict PendingMessage)
    → has key m ≡ false
    → insert key v m ≡ m ++ (key, v) ∷ []
unfolding insert has
insert_fresh key v [] h = refl
insert_fresh key v ((here, w) ∷ later) h =
    let other : str_eq here key ≡ false = ground arith in
    rw other (ap (λ l. (here, w) ∷ l) (insert_fresh key v later (ground arith)))

matching-append :
    (test : PendingMessage → Bool) (xs ys : Dict PendingMessage)
    → matching test (xs ++ ys) ≡ matching test xs ++ matching test ys
unfolding matching
matching-append test [] ys = refl
matching-append test ((key, v) ∷ xs) ys = elim (Bool-cases (test v)) [
  | inl e ↦ rw e (ap (λ l. (key, v) ∷ l) (matching-append test xs ys))
  | inr e ↦ rw e (matching-append test xs ys)
]

drop-append_length {ℓ} : {A : Type ℓ} (xs ys : List A) → drop (length xs) (xs ++ ys) ≡ ys
drop-append_length [] ys = refl
drop-append_length (x ∷ xs) ys = drop-append_length xs ys

-- The key under which a message is buffered.
abbrev pub key_of : String → Stamp → Sent → String
key_of project stamp m =
    project & ":" & (m.session_id otherwise "none") & ":" & stamp.show stamp.key_time

abbrev pending_of : String → Stamp → Sent → PendingMessage
pending_of project stamp m = record {
  project_id = project;
  session_id = m.session_id;
  content = m.content;
  ts = stamp.ts;
}

module _ (project : String) (stamp : Stamp) (m : Sent) (s : Storage) where
  buffered : Storage
  buffered =
      buffer_pending_message stamp.show stamp.key_time stamp.ts project m.session_id m.content s

  abbrev Fresh : Type 0
  Fresh = has (key_of project stamp m) s.messages ≡ false

  matching-buffered :
      (test : PendingMessage → Bool)
      → s.is_writable ≡ true
      → Fresh
      → matching test buffered.messages
        ≡ matching test s.messages
          ++ matching test ((key_of project stamp m, pending_of project stamp m) ∷ [])
  unfolding buffered buffer_pending_message write_buffer
  matching-buffered test w free =
      let key = key_of project stamp m in
      let v = pending_of project stamp m in
      rw w (
        ap (matching test) (insert_fresh key v s.messages free)
        ∙ matching-append test s.messages ((key, v) ∷ []))

storage-hook_step :
    (project : String) (stamp : Stamp) (n : ℕ) (m : Sent) (k : Cockpit)
    → get_elem? k.sent n ≡ some m
    → (hook_step project stamp (expired n) k).storage ≡ buffered project stamp m k.storage
unfolding hook_step with_stream step auth_expired on_outputs on_complete buffer_expired buffered
storage-hook_step project stamp n m k h =
    let t = auth_expired n k.stream in
    let c : Completion = record {
      send = n;
      message = [];
      success = false;
      error_code = some "auth_expired";
      invocations = none;
    } in
    ap (λ out. (on_outputs project stamp out (record k { stream = t })).storage)
      (drop-append_length k.stream.log (completed c ∷ []))
    ∙ ap (λ o. (on_complete project stamp c o (record k { stream = t })).storage) h

module _ (project : String) (stamp : Stamp) (m : Sent) (s : Storage) where
  entry : String × PendingMessage
  entry = (key_of project stamp m, pending_of project stamp m)

  own : matching (is_of project) (entry ∷ []) ≡ entry ∷ []
  unfolding matching entry
  own = rw (eq_refl project) refl

  not_others : matching (λ v. not (is_of project v)) (entry ∷ []) ≡ []
  unfolding matching entry
  not_others = rw (eq_refl project) refl

  is_writable-buffered : s.is_writable ≡ true → (buffered project stamp m s).is_writable ≡ true
  unfolding buffered buffer_pending_message write_buffer
  is_writable-buffered w = ground (arith, w)

  Distinct-buffered : Distinct s.messages → Distinct (buffered project stamp m s).messages
  unfolding buffered
  Distinct-buffered d =
      buffer_pending_message-Distinct stamp.show stamp.key_time stamp.ts project m.session_id
        m.content s d

  -- The buffered message is one more message of the project.
  taken-buffered :
      s.is_writable ≡ true
      → Fresh project stamp m s
      → Distinct s.messages
      → Perm
          (map
            (λ (t : Taken). t.content)
            (take_pending_messages project (buffered project stamp m s)).0)
          (m.content ∷ map (λ (t : Taken). t.content) (take_pending_messages project s).0)
  unfolding entry
  taken-buffered w free d =
      let b = buffered project stamp m s in
      let before = matching (is_of project) s.messages in
      let after : map taken_of (matching (is_of project) b.messages)
          ≡ map taken_of before ++ taken_of entry ∷ [] =
        ap (map taken_of)
          (matching-buffered project stamp m s (is_of project) w free ∙ ap (λ l. before ++ l) own)
        ∙ map-append taken_of before (entry ∷ []) in
      let new =
        (take_pending_messages_lem project b (is_writable-buffered w) (Distinct-buffered d)).0 in
      let old = (take_pending_messages_lem project s w d).0 in
      let all = Perm.trans (subst (λ l. Perm (take_pending_messages project b).0 l) after new) (
        Perm.trans (perm_append_singleton (taken_of entry) (map taken_of before))
          (Perm.cons (taken_of entry) (Perm.symm old))) in
      Perm.map (λ (t : Taken). t.content) all

  left-buffered :
      s.is_writable ≡ true
      → Fresh project stamp m s
      → Distinct s.messages
      → (take_pending_messages project (buffered project stamp m s)).1.messages
        ≡ (take_pending_messages project s).1.messages
  unfolding entry
  left-buffered w free d =
      let b = buffered project stamp m s in
      let others = matching (λ v. not (is_of project v)) s.messages in
      (take_pending_messages_lem project b (is_writable-buffered w) (Distinct-buffered d)).2
      ∙ matching-buffered project stamp m s (λ v. not (is_of project v)) w free
      ∙ ap (λ l. others ++ l) not_others
      ∙ append-nil others
      ∙ sym (take_pending_messages_lem project s w d).2

-- If the session has expired when message number `n` is sent, the storage takes writes, its keys
-- are distinct, and the key of the message (its project, its session and the clock) is free, then
-- when the cockpit opens again it sends the content of this message exactly once more, together
-- with exactly the messages that were waiting before, and leaves in the storage what it would have
-- left without it.
pub messages_to_replay-expired :
    (project : String) (stamp : Stamp) (n : ℕ) (m : Sent) (k : Cockpit)
    → get_elem? k.sent n ≡ some m
    → k.storage.is_writable ≡ true
    → Distinct k.storage.messages
    → has (key_of project stamp m) k.storage.messages ≡ false
    → let after = hook_step project stamp (expired n) k in
      Perm (messages_to_replay project after).0 (m.content ∷ (messages_to_replay project k).0)
      × ((messages_to_replay project after).1.storage.messages
          ≡ (messages_to_replay project k).1.storage.messages)
unfolding messages_to_replay
messages_to_replay-expired project stamp n m k h w d free =
    let stored = storage-hook_step project stamp n m k h in
    let before = (take_pending_messages project k.storage).0 in
    let content = λ (t : Taken). t.content in
    (
      subst
          (λ s.
            Perm (map content (take_pending_messages project s).0) (m.content ∷ map content before))
          (sym stored) (taken-buffered project stamp m k.storage w free d),
      ap (λ s. (take_pending_messages project s).1.messages) stored
          ∙ left-buffered project stamp m k.storage w free d,
    )
