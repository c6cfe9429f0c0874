-- ===== src/Cockpit/View/Tests.antt =====
-- Runs of the cockpit's state.
use open_pm.Common.{
  Text, none, some, List, [], ◌∷◌, ◌≡◌, refl, true, false, units, Perm, get_elem?, has,
}
use open_pm.Chat.Stream.{
  flush_completion_if_ready, pump, message_end, initial, content_delta, begin_send,
}
use open_pm.Chat.Session.{Step, step, handle_event, event, frame, microtask, expired}
use open_pm.Auth.Pending.{Storage}
use open_pm.Auth.Pending.Take.{Distinct}
use open_pm.Cockpit.View.{
  Cockpit, Stamp, landing, hook_step, handle_send, handle_back_to_landing, view_effect,
  messages_to_replay,
}
use open_pm.Cockpit.View.Landing.{
  refetch_ends, next_frame, next_microtask, escape, quiet_run, handle_back_to_landing-stays,
}
use open_pm.Cockpit.View.Expired.{key_of, messages_to_replay-expired}
use open_pm.Cockpit.View.Bubble.{outputs, answer_texts}

abbrev stamp : Stamp
stamp = record { id = "u1"; now = "t1"; key_time = 5; ts = 6; show = λ n. "5" }

abbrev writable : Storage
writable = record { is_writable = true; messages = [] }

abbrev opened : Cockpit
opened = record {
  stream = initial;
  selected_model = none;
  optimistic_messages = [];
  view_mode = landing;
  storage = writable;
  sent = [];
  refetches = 0;
}

abbrev question : Text
question = units "Wer liefert?"

abbrev asked : Cockpit
asked = handle_send "p" stamp none none question opened

abbrev waiting : Cockpit
waiting = record opened { refetches = 1 }

asked-idle : asked.stream.microtasks ≡ []
unfolding handle_send initial begin_send
asked-idle = refl

asked-sent :
    get_elem? asked.sent 0 ≡ some (record { content = question; session_id = none; model = none })
unfolding handle_send
asked-sent = refl

asked-writable : asked.storage.is_writable ≡ true
unfolding handle_send
asked-writable = refl

asked-Distinct : Distinct asked.storage.messages
unfolding handle_send
asked-Distinct = tt

asked-free :
    has
      (key_of "p" stamp (record { content = question; session_id = none; model = none }))
      asked.storage.messages
    ≡ false
unfolding handle_send has
asked-free = refl

handle_back_to_landing-stays_example :
    let steps = next_frame stamp ∷ refetch_ends ∷ next_microtask stamp ∷ escape stamp false ∷ [] in
    let after = quiet_run "p" steps (view_effect (handle_back_to_landing "p" stamp asked)) in
    (after.view_mode ≡ landing)
    × (after.optimistic_messages ≡ [])
    × (after.stream.current_session_id ≡ none)
handle_back_to_landing-stays_example =
    handle_back_to_landing-stays "p" stamp asked
      (next_frame stamp ∷ refetch_ends ∷ next_microtask stamp ∷ escape stamp false ∷ []) asked-idle

messages_to_replay-expired_example :
    let after = hook_step "p" stamp (expired 0) asked in
    Perm (messages_to_replay "p" after).0 (question ∷ (messages_to_replay "p" asked).0)
    × ((messages_to_replay "p" after).1.storage.messages
        ≡ (messages_to_replay "p" asked).1.storage.messages)
messages_to_replay-expired_example =
    messages_to_replay-expired "p" stamp 0
      (record { content = question; session_id = none; model = none }) asked asked-sent
      asked-writable asked-Distinct asked-free

abbrev first_steps : List (Stamp × Step)
first_steps =
    (stamp, event 0 (content_delta (some (units "A"))))
    ∷ (stamp, event 0 message_end)
    ∷ (stamp, frame)
    ∷ (stamp, frame)
    ∷ (stamp, microtask)
    ∷ []

first_answer :
    let sending = handle_send "p" stamp none none question waiting in
    answer_texts sending.sent (outputs first_steps sending.stream) ≡ units "A" ∷ []
unfolding handle_send initial step begin_send handle_event flush_completion_if_ready pump
first_answer = refl
