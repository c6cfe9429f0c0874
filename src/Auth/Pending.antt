-- ===== src/Auth/Pending.antt =====
-- The buffer of unsent messages in frontend/src/lib/authClient.ts. The storage holds the messages
-- under their keys; a storage that is missing, full or malformed reads as empty or takes no writes.
pub mod Take
use open_pm.Common.{
  ℕ, Text, String, Option, List, [], ◌∷◌, Bool, true, false, leb, str_eq, if◌then◌else◌,
  ◌otherwise◌, Dict, insert, delete, map, ◌&◌,
}

pub record PendingMessage : Type 0 where
  pub project_id : String
  pub session_id : Option String
  pub content : Text
  pub ts : ℕ

pub record Storage : Type 0 where
  pub is_writable : Bool
  pub messages : Dict PendingMessage

pub record Taken : Type 0 where
  pub session_id : Option String
  pub content : Text
  pub ts : ℕ

unfoldable pub write_buffer : Dict PendingMessage → Storage → Storage
write_buffer messages s = if s.is_writable then record s { messages = messages } else s

-- `show` prints a number in a template; `Date.now()` is read twice.
unfoldable pub buffer_pending_message :
    (show : ℕ → String) (key_time ts : ℕ) → String → Option String → Text → Storage → Storage
buffer_pending_message show key_time ts project session content s =
    let key = project & ":" & (session otherwise "none") & ":" & show key_time in
    write_buffer
      (insert key
        (record { project_id = project; session_id = session; content = content; ts = ts })
        s.messages)
      s

-- `Object.entries(buf).filter(([, v]) => test(v))`.
unfoldable pub matching : (PendingMessage → Bool) → Dict PendingMessage → Dict PendingMessage
matching test [] = []
matching test ((key, v) ∷ later) =
    let rest = matching test later in if test v then (key, v) ∷ rest else rest

-- `for (const [k] of matching) delete buf[k]`.
unfoldable pub delete_all : Dict PendingMessage → Dict PendingMessage → Dict PendingMessage
delete_all [] buf = buf
delete_all ((key, v) ∷ later) buf = delete_all later (delete key buf)

abbrev pub taken_of : String × PendingMessage → Taken
taken_of (key, v) = record { session_id = v.session_id; content = v.content; ts = v.ts }

-- `.sort((a, b) => a.ts - b.ts)`, which is stable.
unfoldable pub place_by_ts : Taken → List Taken → List Taken
place_by_ts t [] = t ∷ []
place_by_ts t (u ∷ us) = if leb t.ts u.ts then t ∷ u ∷ us else u ∷ place_by_ts t us

unfoldable pub sort_by_ts : List Taken → List Taken
sort_by_ts [] = []
sort_by_ts (t ∷ ts) = place_by_ts t (sort_by_ts ts)

abbrev pub is_of : String → PendingMessage → Bool
is_of project v = str_eq v.project_id project

-- The messages that are returned, and the storage that is left.
unfoldable pub take_pending_messages : String → Storage → List Taken × Storage
take_pending_messages project s =
    let found = matching (is_of project) s.messages in
    (sort_by_ts (map taken_of found), write_buffer (delete_all found s.messages) s)
