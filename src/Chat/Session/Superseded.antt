-- ===== src/Chat/Session/Superseded.antt =====
-- What becomes of a message whose answer is still awaited when another message is sent.
use open_pm.Common.{
  is_empty, ℕ, suc, ◌+◌, Option, none, some, List, [], ◌∷◌, ◌++◌, ◌≡◌, ◌≢◌, refl, ap, Bool, true,
  false, not, ◌||◌, ◌==◌, if◌then◌else◌, arith, All, All-append, Bool-cases, inl, inr, some_inj,
  subst,
}
use open_pm.Chat.Types.{ActiveToolCall}
use open_pm.Chat.Stream.{
  Output, completed, toast, Stream, ChatEvent, message_end, error, flush_completion_if_ready, pump,
  run_microtask, begin_send, auth_expired, response_failed, network_failed, queue_completion,
}
use open_pm.Chat.Session.{
  handle_event, close_stream, complete_partial, abort, start_new_session, set_session_id,
  clear_error, Step, send, event, close, expired, refused, lost, frame, microtask, stop,
  new_session, select_session, dismiss_error, step, run,
}

-- How often the callback of call `k` has been called.
abbrev pub answers : ℕ → List Output → ℕ
answers k [] = 0
answers k (toast t ∷ log) = answers k log
answers k (completed c ∷ log) = let rest = answers k log in if c.send == k then suc rest else rest

-- The step is neither the sending of message `k` nor anything that its own reader does.
abbrev pub Foreign : ℕ → Step → Type 0
Foreign k (send j) = j ≢ k
Foreign k (event j e) = j ≢ k
Foreign k (close j) = j ≢ k
Foreign k (expired j) = j ≢ k
Foreign k (refused j) = j ≢ k
Foreign k (lost j) = j ≢ k
Foreign k _ = Unit

-- No microtask is due for call `k`.
abbrev pub NoTask : ℕ → List (ℕ × List ActiveToolCall) → Type 0
NoTask k tasks = All (λ (t : ℕ × List ActiveToolCall). t.0 ≢ k) tasks

-- The hook has forgotten the callback of call `k`, which has been called `n` times.
record Forgot (k n : ℕ) (s : Stream) : Type 0 where
  not_pending : s.completion ≢ some k
  no_task : NoTask k s.microtasks
  called : answers k s.log ≡ n

answers-append : (k : ℕ) (xs ys : List Output) → answers k (xs ++ ys) ≡ answers k xs + answers k ys
answers-append k [] ys = omega arith
answers-append k (toast t ∷ xs) ys = answers-append k xs ys
answers-append k (completed c ∷ xs) ys = ground (arith, answers-append k xs ys)

NoTask-queue_completion :
    (k : ℕ) (c : Option ℕ) (calls : List ActiveToolCall) (tasks : List (ℕ × List ActiveToolCall))
    → c ≢ some k
    → NoTask k tasks
    → NoTask k (queue_completion c calls tasks)
NoTask-queue_completion k none calls tasks ne h = h
NoTask-queue_completion k (some j) calls tasks ne h =
    All-append _ tasks ((j, calls) ∷ []) h ((λ e. ne (ap some e)), tt)

partial_other :
    (k : ℕ) (c : Option ℕ) (s : Stream) → c ≢ some k → answers k (complete_partial c s) ≡ 0
partial_other k none s h = refl
partial_other k (some j) s h = let ne : j ≢ k = λ e. h (ap some e) in ground arith

module _ (k n : ℕ) where
  -- More output does not matter, if none of it calls the callback.
  called-append :
      (log extra : List Output)
      → answers k log ≡ n
      → answers k extra ≡ 0
      → answers k (log ++ extra) ≡ n
  called-append log extra h e = omega (arith, answers-append k log extra)

  flush-Forgot : (s : Stream) → Forgot k n s → Forgot k n (flush_completion_if_ready s)
  unfolding flush_completion_if_ready
  flush-Forgot s f = branch (not (is_empty s.queued_text) || not s.stream_closed)
    where
      t : Stream
      t =
          let st = s.state in
          record s {
            stream_closed = false;
            state = record st {
              streaming = false;
              sending = false;
              streaming_text = [];
              active_tools = [];
            };
            completion = none;
            microtasks = queue_completion s.completion s.tool_calls s.microtasks;
          }

      branch : (b : Bool) → Forgot k n (if b then s else t)
      branch true = f
      branch false = record {
        not_pending = λ e. cc;
        no_task =
            NoTask-queue_completion k s.completion s.tool_calls s.microtasks f.not_pending
              f.no_task;
        called = f.called;
      }

  pump-Forgot : (s : Stream) → Forgot k n s → Forgot k n (pump s)
  unfolding pump
  pump-Forgot s f = elim (Bool-cases (not (is_empty s.queued_text))) [
    | inl e ↦ rw e (record { not_pending = f.not_pending; no_task = f.no_task; called = f.called })
    | inr e ↦ rw e (flush-Forgot s f)
  ]

  microtask-Forgot :
      (tasks : List (ℕ × List ActiveToolCall)) (s : Stream)
      → s.microtasks ≡ tasks
      → Forgot k n s
      → Forgot k n (run_microtask tasks s)
  microtask-Forgot [] s e f = f
  microtask-Forgot ((j, calls) ∷ later) s e f =
      let due = subst (λ tasks. NoTask k tasks) e f.no_task in
      let other = due.0 in
      record {
        not_pending = f.not_pending;
        no_task = due.1;
        called = called-append s.log _ f.called (ground arith);
      }

  handle_event-Forgot :
      (j : ℕ) (e : ChatEvent) (s : Stream) → j ≢ k → Forgot k n s → Forgot k n (handle_event j e s)
  unfolding handle_event
  handle_event-Forgot j message_end s h f =
      flush-Forgot _
        (record { not_pending = f.not_pending; no_task = f.no_task; called = f.called })
  handle_event-Forgot j (error message code) s h f = record {
    not_pending = λ e. cc;
    no_task = f.no_task;
    called = called-append s.log _ f.called (ground arith);
  }
  handle_event-Forgot j _ s h f = record {
    not_pending = f.not_pending;
    no_task = f.no_task;
    called = f.called;
  }

  abort-Forgot : (s : Stream) → Forgot k n s → Forgot k n (abort s)
  unfolding abort
  abort-Forgot s f = record {
    not_pending = λ e. cc;
    no_task = f.no_task;
    called = called-append s.log _ f.called (partial_other k s.completion s f.not_pending);
  }

  -- The hook goes on to forget a callback, whatever else happens.
  step-Forgot : (e : Step) (s : Stream) → Foreign k e → Forgot k n s → Forgot k n (step e s)
  unfolding step begin_send auth_expired response_failed network_failed close_stream
      start_new_session set_session_id clear_error
  step-Forgot (send j) s h f = record {
    not_pending = λ e. h (some_inj e);
    no_task = f.no_task;
    called = f.called;
  }
  step-Forgot (event j e) s h f = handle_event-Forgot j e s h f
  step-Forgot (close j) s h f =
      flush-Forgot _
        (record { not_pending = f.not_pending; no_task = f.no_task; called = f.called })
  step-Forgot (expired j) s h f = record {
    not_pending = λ e. cc;
    no_task = f.no_task;
    called = called-append s.log _ f.called (ground arith);
  }
  step-Forgot (refused j) s h f = record {
    not_pending = λ e. cc;
    no_task = f.no_task;
    called = called-append s.log _ f.called (ground arith);
  }
  step-Forgot (lost j) s h f = record {
    not_pending = λ e. cc;
    no_task = f.no_task;
    called = called-append s.log _ f.called (ground arith);
  }
  step-Forgot frame s h f = pump-Forgot s f
  step-Forgot microtask s h f = microtask-Forgot s.microtasks s refl f
  step-Forgot stop s h f = abort-Forgot s f
  step-Forgot new_session s h f = record {
    not_pending = λ e. cc;
    no_task = f.no_task;
    called = f.called;
  }
  step-Forgot (select_session id) s h f =
      let g = abort-Forgot s f in
      record { not_pending = g.not_pending; no_task = g.no_task; called = g.called }
  step-Forgot dismiss_error s h f = record {
    not_pending = f.not_pending;
    no_task = f.no_task;
    called = f.called;
  }

  run-Forgot :
      (es : List Step) (s : Stream) → All (Foreign k) es → Forgot k n s → Forgot k n (run es s)
  unfolding run
  run-Forgot [] s h f = f
  run-Forgot (e ∷ es) s (here, later) f = run-Forgot es (step e s) later (step-Forgot e s here f)

-- If another message is sent when no microtask with the answer to message `k` waits, then no later
-- step calls the callback of `k` again, neither with an answer nor with an error, as long as `k` is
-- not sent again and its own reader does nothing.
pub run-superseded :
    (k j : ℕ) (s : Stream) (es : List Step)
    → j ≢ k
    → NoTask k s.microtasks
    → All (Foreign k) es
    → answers k (run (send j ∷ es) s).log ≡ answers k s.log
unfolding run step begin_send
run-superseded k j s es ne no_task foreign =
    (run-Forgot k (answers k s.log) es (step (send j) s) foreign
      (record { not_pending = λ e. ne (some_inj e); no_task = no_task; called = refl })).called
