-- ===== src/Framing/Raw.antt =====
-- server/messageconn.go: `rawConn` and `wsConn`. A connection read from is the bytes that come until
-- its end; the write of the network connection is a parameter, which says how many bytes it took and
-- whether it failed. The terminator is an ASCII byte.
use nvda_remote_go.Prelude.{
  trim_right, ℕ, suc, Bytes, Bool, Option, none, some, [], ◌∷◌, ◌++◌, length, take, ◌==◌,
  if◌then◌else◌, ltb,
}

-- `ReadBytes`: the bytes up to the first terminator, which is the last of them, and the bytes after
-- it; an error when the connection ends before a terminator.
abbrev pub with_byte : ℕ → Option (Bytes × Bytes) → Option (Bytes × Bytes)
with_byte x none = none
with_byte x (some (line, s)) = some (x ∷ line, s)

unfoldable pub read_bytes : ℕ → Bytes → Option (Bytes × Bytes)
read_bytes t [] = none
read_bytes t (x ∷ s) =
    let rest = read_bytes t s in if x == t then some (x ∷ [], s) else with_byte x rest

abbrev pub trimmed : ℕ → Option (Bytes × Bytes) → Option (Bytes × Bytes)
trimmed t none = none
trimmed t (some (line, s)) = some (trim_right t line, s)

-- `rawConn.ReadMessage`, with the bytes that are still to be read
unfoldable pub read_message : ℕ → Bytes → Option (Bytes × Bytes)
unfolding read_bytes trim_right
read_message t s = trimmed t (read_bytes t s)

-- `wsConn.ReadMessage`, of the data of a frame
unfoldable pub ws_read_message : Option Bytes → Option Bytes
unfolding trim_right
ws_read_message none = none
ws_read_message (some frame) = some (trim_right 10 frame)

-- What a write of the connection comes to.
pub record Written : Type 0 where
  pub num : ℕ
  pub failed : Bool

-- What `WriteMessage` returns.
pub data Outcome : Type 0 where
  ok write_error err_closed : Outcome

module _ (write : Bytes → Written) where
  -- the bytes that go to the connection
  abbrev pub framed : ℕ → Bytes → Bytes
  framed t b = b ++ t ∷ []

  -- `rawConn.WriteMessage`, with the bytes that reach the connection
  unfoldable pub write_message : ℕ → Bytes → Outcome × Bytes
  write_message t b =
      let w = write (framed t b) in
      let sent = take w.num (framed t b) in
      if w.failed
      then (write_error, sent)
      else if ltb w.num (suc (length b))
      then (err_closed, sent)
      else (ok, sent)
