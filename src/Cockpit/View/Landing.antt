-- ===== src/Cockpit/View/Landing.antt =====
-- The way back to the landing view.
use open_pm.Common.{
  ℕ, suc, zero, String, Option, none, some, List, [], ◌∷◌, ◌≡◌, refl, ap, sym, ◌∙◌, subst, Bool,
  true, false, if◌then◌else◌, length, drop, get_elem?,
}
use open_pm.Chat.Stream.{
  Stream, Completion, Output, completed, toast, pump, flush_completion_if_ready,
}
use open_pm.Chat.Session.{Step, frame, microtask, step, abort, start_new_session}
use open_pm.Cockpit.View.{
  Cockpit, ViewMode, landing, conversation, Stamp, on_complete, on_outputs, with_stream, hook_step,
  refetched, handle_abort, handle_back_to_landing, on_escape, is_busy, view_effect, Sent,
}

-- What happens in the cockpit while the user does nothing in it but press Escape.
pub data Quiet : Type 0 where
  refetch_ends : Quiet
  next_frame next_microtask : Stamp → Quiet
  escape : Stamp → Bool → Quiet

module _ (project : String) where
  -- A step, with the effect after it.
  abbrev pub on_quiet : Quiet → Cockpit → Cockpit
  on_quiet refetch_ends k = view_effect (refetched project k.refetches k)
  on_quiet (next_frame stamp) k = view_effect (hook_step project stamp frame k)
  on_quiet (next_microtask stamp) k = view_effect (hook_step project stamp microtask k)
  on_quiet (escape stamp in_input) k = view_effect (on_escape project stamp in_input k.view_mode k)

  abbrev pub quiet_run : List Quiet → Cockpit → Cockpit
  quiet_run [] k = k
  quiet_run (q ∷ qs) k = quiet_run qs (on_quiet q k)

  -- The landing view with nothing under way in the hook.
  record Rests (k : Cockpit) : Type 0 where
    mode : k.view_mode ≡ landing
    session : k.stream.current_session_id ≡ none
    streaming : k.stream.state.streaming ≡ false
    sending : k.stream.state.sending ≡ false
    messages : k.optimistic_messages ≡ []
    queue : k.stream.queued_text ≡ []
    closed : k.stream.stream_closed ≡ false
    microtasks : k.stream.microtasks ≡ []

  drop-length {ℓ} : {A : Type ℓ} (xs : List A) → drop (length xs) xs ≡ []
  drop-length [] = refl
  drop-length (x ∷ xs) = drop-length xs

  stream-on_complete :
      (stamp : Stamp) (c : Completion) (m : Option Sent) (k : Cockpit)
      → (on_complete project stamp c m k).stream ≡ k.stream
  unfolding on_complete
  stream-on_complete stamp c none k = refl
  stream-on_complete stamp c (some m) k = refl

  stream-on_outputs :
      (stamp : Stamp) (out : List Output) (k : Cockpit)
      → (on_outputs project stamp out k).stream ≡ k.stream
  unfolding on_outputs
  stream-on_outputs stamp [] k = refl
  stream-on_outputs stamp (toast t ∷ later) k = stream-on_outputs stamp later k
  stream-on_outputs stamp (completed c ∷ later) k =
      stream-on_outputs stamp later (on_complete project stamp c (get_elem? k.sent c.send) k)
      ∙ stream-on_complete stamp c (get_elem? k.sent c.send) k

  stream-handle_abort :
      (stamp : Stamp) (k : Cockpit) → (handle_abort project stamp k).stream ≡ abort k.stream
  unfolding handle_abort with_stream
  stream-handle_abort stamp k =
      stream-on_outputs stamp (drop (length k.stream.log) (abort k.stream).log)
        (record k { stream = abort k.stream })

  handle_back_to_landing-Rests :
      (stamp : Stamp) (k : Cockpit)
      → k.stream.microtasks ≡ []
      → Rests (handle_back_to_landing project stamp k)
  unfolding handle_back_to_landing start_new_session handle_abort abort
  handle_back_to_landing-Rests stamp k h = record {
    mode = refl;
    session = refl;
    streaming = refl;
    sending = refl;
    messages = refl;
    queue = refl;
    closed = refl;
    microtasks = ap (λ (s : Stream). s.microtasks) (stream-handle_abort stamp k) ∙ h;
  }

  is_busy-Rests : (k : Cockpit) → Rests k → is_busy k ≡ false
  is_busy-Rests k r = rw (r.session, r.streaming, r.sending, r.messages) refl

  view_effect-Rests : (k : Cockpit) → Rests k → Rests (view_effect k)
  unfolding view_effect
  view_effect-Rests k r =
      subst (λ b. Rests (if b then record k { view_mode = conversation } else k))
        (sym (is_busy-Rests k r)) r

  hook_step-Same :
      (stamp : Stamp) (e : Step) (k : Cockpit)
      → step e k.stream ≡ k.stream
      → hook_step project stamp e k ≡ k
  unfolding hook_step with_stream on_outputs
  hook_step-Same stamp e k h =
      ap
        (λ s. on_outputs project stamp (drop (length k.stream.log) s.log) (record k { stream = s }))
        h
      ∙ ap (λ out. on_outputs project stamp out k) (drop-length k.stream.log)

  frame-Rests : (k : Cockpit) → Rests k → step frame k.stream ≡ k.stream
  unfolding step pump flush_completion_if_ready
  frame-Rests k r = rw (r.queue, r.closed) refl

  microtask-Rests : (k : Cockpit) → Rests k → step microtask k.stream ≡ k.stream
  unfolding step
  microtask-Rests k r = rw r.microtasks refl

  refetched-Rests : (n : ℕ) (k : Cockpit) → Rests k → Rests (refetched project n k)
  unfolding refetched
  refetched-Rests zero k r = r
  refetched-Rests (suc n) k r = record {
    mode = r.mode;
    session = r.session;
    streaming = r.streaming;
    sending = r.sending;
    messages = refl;
    queue = r.queue;
    closed = r.closed;
    microtasks = r.microtasks;
  }

  on_escape-Rests :
      (stamp : Stamp) (in_input : Bool) (mode : ViewMode) (k : Cockpit)
      → mode ≡ landing
      → on_escape project stamp in_input mode k ≡ k
  unfolding on_escape
  on_escape-Rests stamp true mode k h = refl
  on_escape-Rests stamp false landing k h = refl
  on_escape-Rests stamp false conversation k h = cc

  on_quiet-Rests : (q : Quiet) (k : Cockpit) → Rests k → Rests (on_quiet q k)
  on_quiet-Rests refetch_ends k r =
      view_effect-Rests (refetched project k.refetches k) (refetched-Rests k.refetches k r)
  on_quiet-Rests (next_frame stamp) k r =
      subst (λ x. Rests (view_effect x)) (sym (hook_step-Same stamp frame k (frame-Rests k r)))
        (view_effect-Rests k r)
  on_quiet-Rests (next_microtask stamp) k r =
      subst (λ x. Rests (view_effect x))
        (sym (hook_step-Same stamp microtask k (microtask-Rests k r))) (view_effect-Rests k r)
  on_quiet-Rests (escape stamp in_input) k r =
      subst (λ x. Rests (view_effect x)) (sym (on_escape-Rests stamp in_input k.view_mode k r.mode))
        (view_effect-Rests k r)

  quiet_run-Rests : (qs : List Quiet) (k : Cockpit) → Rests k → Rests (quiet_run qs k)
  quiet_run-Rests [] k r = r
  quiet_run-Rests (q ∷ qs) k r = quiet_run-Rests qs (on_quiet q k) (on_quiet-Rests q k r)

  -- Going back to the landing view from any state of the cockpit in which no finished answer waits
  -- to be handed over, also in the middle of an answer, ends there with no session and no messages,
  -- and neither the effect that shows the conversation nor the refetches, frames, microtasks and
  -- presses of Escape that follow leave it.
  pub handle_back_to_landing-stays :
      (stamp : Stamp) (k : Cockpit) (qs : List Quiet)
      → k.stream.microtasks ≡ []
      → let after = quiet_run qs (view_effect (handle_back_to_landing project stamp k)) in
        (after.view_mode ≡ landing)
        × (after.optimistic_messages ≡ [])
        × (after.stream.current_session_id ≡ none)
  handle_back_to_landing-stays stamp k qs h =
      let start = handle_back_to_landing project stamp k in
      let r =
        quiet_run-Rests qs (view_effect start)
          (view_effect-Rests start (handle_back_to_landing-Rests stamp k h)) in
      (r.mode, r.messages, r.session)
