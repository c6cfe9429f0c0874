-- ===== src/Chat/Session/Conserve.antt =====
-- The text of an answer between the network and the screen, over any course of steps.
use open_pm.Common.{
  is_empty, Text, ℕ, Option, none, some, List, [], ◌∷◌, ◌++◌, ◌≡◌, refl, sym, ap, ◌∙◌, not, ◌||◌,
  take, append_assoc, Bool-cases, inl, inr, take-append-drop, drop-length-take, arith, ◌otherwise◌,
}
use open_pm.Chat.Types.{ActiveToolCall}
use open_pm.Chat.Stream.{
  Stream, ChatEvent, content_delta, message_end, error, initial, flush_completion_if_ready, pump,
  run_microtask, begin_send, auth_expired, response_failed, network_failed, slice_length,
}
use open_pm.Chat.Session.{
  handle_event, close_stream, abort, start_new_session, set_session_id, clear_error, Step, send,
  event, close, frame, microtask, dismiss_error, step, run,
}

-- The call that was made last, after `e` and after some steps.
abbrev pub called : Step → Option ℕ → Option ℕ
called (send k) last = some k
called e last = last

abbrev pub last_call : List Step → Option ℕ → Option ℕ
last_call [] last = last
last_call (e ∷ es) last = last_call es (called e last)

-- The text that the network has delivered since that call, after `e` and after some steps.
abbrev pub delivered : Step → Text → Text
delivered (send k) t = []
delivered (event k (content_delta delta)) t = t ++ (delta otherwise [])
delivered e t = t

abbrev pub received : List Step → Text → Text
received [] t = t
received (e ∷ es) t = received es (delivered e t)

-- An answer is awaited only for the call `last`, and then what is shown and what is queued make up
-- `t`, which is also what the callback is to be given.
abbrev pub Conserves : Option ℕ → Text → Stream → Type 0
Conserves last t s =
    (k : ℕ)
    → s.completion ≡ some k
    → (last ≡ some k) × (s.state.streaming_text ++ s.queued_text ≡ t) × (s.full_text ≡ t)

module _ (last : Option ℕ) (t : Text) where
  flush-Conserves :
      (s : Stream) → Conserves last t s → Conserves last t (flush_completion_if_ready s)
  unfolding flush_completion_if_ready
  flush-Conserves s h = elim (Bool-cases (not (is_empty s.queued_text) || not s.stream_closed)) [
    | inl e ↦ rw e h
    | inr e ↦ rw e (λ k c. absurd (ground arith))
  ]

  pump-Conserves : (s : Stream) → Conserves last t s → Conserves last t (pump s)
  unfolding pump
  pump-Conserves s h = elim (Bool-cases (not (is_empty s.queued_text))) [
    | inl e ↦ rw e (λ k c.
        let (mine, all, full) = h k c in
        let moved =
          append_assoc s.state.streaming_text (take slice_length s.queued_text) _
          ∙ ap (λ u. s.state.streaming_text ++ (take slice_length s.queued_text ++ u))
              (drop-length-take slice_length s.queued_text)
          ∙ ap (λ u. s.state.streaming_text ++ u) (take-append-drop slice_length s.queued_text) in
        (mine, moved ∙ all, full))
    | inr e ↦ rw e (flush-Conserves s h)
  ]

  run_microtask-Conserves :
      (tasks : List (ℕ × List ActiveToolCall)) (s : Stream)
      → Conserves last t s
      → Conserves last t (run_microtask tasks s)
  run_microtask-Conserves [] s h = h
  run_microtask-Conserves ((k, calls) ∷ later) s h = h

  handle_event-Conserves :
      (k : ℕ) (e : ChatEvent) (s : Stream)
      → Conserves last t s
      → Conserves last (delivered (event k e) t) (handle_event k e s)
  unfolding handle_event
  handle_event-Conserves k (content_delta delta) s h = λ j c.
      let (mine, all, full) = h j c in
      (
        mine,
        sym (append_assoc s.state.streaming_text s.queued_text (delta otherwise []))
            ∙ ap (λ u. u ++ (delta otherwise [])) all,
        ap (λ u. u ++ (delta otherwise [])) full,
      )
  handle_event-Conserves k message_end s h = flush-Conserves _ h
  handle_event-Conserves k (error message code) s h = λ j c. absurd (ground arith)
  handle_event-Conserves k _ s h = h

  step-Conserves :
      (e : Step) (s : Stream)
      → Conserves last t s
      → Conserves (called e last) (delivered e t) (step e s)
  unfolding step begin_send auth_expired response_failed network_failed close_stream abort
      start_new_session set_session_id clear_error
  step-Conserves (send k) s h = λ j c. (c, refl, refl)
  step-Conserves (event k e) s h = handle_event-Conserves k e s h
  step-Conserves (close k) s h = flush-Conserves _ h
  step-Conserves frame s h = pump-Conserves s h
  step-Conserves microtask s h = run_microtask-Conserves s.microtasks s h
  step-Conserves dismiss_error s h = h
  step-Conserves _ s h = λ j c. absurd (ground arith)

run-from-Conserves :
    (es : List Step) (last : Option ℕ) (t : Text) (s : Stream)
    → Conserves last t s
    → Conserves (last_call es last) (received es t) (run es s)
unfolding run
run-from-Conserves [] last t s h = h
run-from-Conserves (e ∷ es) last t s h =
    run-from-Conserves es (called e last) (delivered e t) (step e s) (step-Conserves last t e s h)

-- Whatever the interleaving of sends, stream events, animation frames, microtasks and session
-- changes: while an answer is awaited, it is that of the last call of `sendMessage`, and the text on
-- the screen followed by the queued text is the text of all the deltas that the streams have
-- delivered since that call, in their order; so is the text that the callback is to be given.
pub run-Conserves :
    (es : List Step) → Conserves (last_call es none) (received es []) (run es initial)
unfolding initial
run-Conserves es = run-from-Conserves es none [] initial (λ k c. absurd (ground arith))
