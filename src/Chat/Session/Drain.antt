-- ===== src/Chat/Session/Drain.antt =====
-- A closed answer is finished by the animation frames alone.
use open_pm.Common.{
  Text, ℕ, zero, suc, ◌+◌, ◌*◌, ◌≤◌, none, some, List, [], ◌∷◌, ◌++◌, ◌≡◌, refl, ap, true, false,
  arith, length, length-drop, drop-length-take, replicate,
}
use open_pm.Chat.Types.{ActiveToolCall}
use open_pm.Chat.Stream.{
  Stream, Output, completed, flush_completion_if_ready, pump, run_microtask, slice_length,
}
use open_pm.Chat.Session.{Step, frame, microtask, step, run}

module _ (k : ℕ) (text : Text) (calls : List ActiveToolCall) (before : List Output) where
  -- The stream of call `k` is closed, and at most `n` code units wait to be shown.
  record Waiting (n : ℕ) (s : Stream) : Type 0 where
    closed : s.stream_closed ≡ true
    pending : s.completion ≡ some k
    received : s.full_text ≡ text
    used : s.tool_calls ≡ calls
    no_task : s.microtasks ≡ []
    logged : s.log ≡ before
    short : length s.queued_text ≤ n

  -- The answer is finished, and its callback is due.
  record Due (s : Stream) : Type 0 where
    reopened : s.stream_closed ≡ false
    none_pending : s.completion ≡ none
    received : s.full_text ≡ text
    task : s.microtasks ≡ (k, calls) ∷ []
    logged : s.log ≡ before
    drained : s.queued_text ≡ []
    stopped : s.state.streaming ≡ false
    cleared : s.state.streaming_text ≡ []

  pump-Due : (s : Stream) → Due s → Due (pump s)
  unfolding pump flush_completion_if_ready
  pump-Due s d = ground arith

  pump-Waiting_empty : (n : ℕ) (s : Stream) → Waiting n s → s.queued_text ≡ [] → Due (pump s)
  unfolding pump flush_completion_if_ready
  pump-Waiting_empty n s w e = ground arith

  pump-Waiting_more :
      (n : ℕ) (s : Stream) {c : ℕ} {cs : Text}
      → Waiting (slice_length + n) s
      → s.queued_text ≡ c ∷ cs
      → Waiting n (pump s)
  unfolding pump
  pump-Waiting_more n s {c} {cs} w e =
      ground
        (arith, drop-length-take slice_length s.queued_text, length-drop slice_length s.queued_text)

  run_frames-Due : (n : ℕ) (s : Stream) → Due s → Due (run (replicate n frame) s)
  unfolding run step
  run_frames-Due zero s d = d
  run_frames-Due (suc n) s d = run_frames-Due n (pump s) (pump-Due s d)

  run_frames-Waiting :
      (n : ℕ) (s : Stream) (q : Text)
      → Waiting (slice_length * n) s
      → s.queued_text ≡ q
      → Due (run (replicate (suc n) frame) s)
  unfolding run step
  run_frames-Waiting n s [] w e =
      run_frames-Due n (pump s) (pump-Waiting_empty (slice_length * n) s w e)
  run_frames-Waiting zero s (c ∷ cs) w e = absurd (omega (arith, w.short, ap length e))
  run_frames-Waiting (suc n) s (c ∷ cs) w e =
      let more : slice_length * suc n ≡ slice_length + slice_length * n = omega arith in
      run_frames-Waiting n (pump s) (pump s).queued_text
        (pump-Waiting_more (slice_length * n) s (rw more at w) e) refl

  microtask-Due :
      (t : Stream)
      → Due t
      → let u = run_microtask t.microtasks t in
        (u.log
          ≡ before
            ++ completed (record {
              send = k;
              message = text;
              success = true;
              error_code = none;
              invocations = some calls;
            })
              ∷ [])
        × (u.completion ≡ none)
        × (u.queued_text ≡ [])
        × (u.state.streaming ≡ false)
        × (u.state.streaming_text ≡ [])
  microtask-Due t d = ground arith

run-append : (xs ys : List Step) (s : Stream) → run (xs ++ ys) s ≡ run ys (run xs s)
unfolding run
run-append [] ys s = refl
run-append (x ∷ xs) ys s = run-append xs ys (step x s)

-- Once the stream of an awaited answer is closed, with at most 12 n code units still to be shown and
-- no microtask waiting, n + 1 animation frames and a microtask finish it: the callback is called once, with the whole
-- text and the tool calls, and nothing is shown or queued as streaming any more.
pub run-finishes :
    (n k : ℕ) (s : Stream)
    → s.stream_closed ≡ true
    → s.completion ≡ some k
    → s.microtasks ≡ []
    → length s.queued_text ≤ 12 * n
    → let t = run (replicate (suc n) frame ++ microtask ∷ []) s in
      (t.log
        ≡ s.log
          ++ completed (record {
            send = k;
            message = s.full_text;
            success = true;
            error_code = none;
            invocations = some s.tool_calls;
          })
            ∷ [])
      × (t.completion ≡ none)
      × (t.queued_text ≡ [])
      × (t.state.streaming ≡ false)
      × (t.state.streaming_text ≡ [])
unfolding run step
run-finishes n k s closed pending no_task short =
    let due =
      run_frames-Waiting k s.full_text s.tool_calls s.log n s s.queued_text
        (record {
          closed = closed;
          pending = pending;
          received = refl;
          used = refl;
          no_task = no_task;
          logged = refl;
          short = short;
        })
        refl in
    rw (run-append (replicate (suc n) frame) (microtask ∷ []) s)
      (microtask-Due k s.full_text s.tool_calls s.log (run (replicate (suc n) frame) s) due)
