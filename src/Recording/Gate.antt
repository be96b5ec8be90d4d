-- ===== src/Recording/Gate.antt =====
-- vtr-rs/src/recording/channel.rs: the handshake of `Channel::enter` and `Channel::close`, with both branches of
-- `enter`: a channel without an independent stop does not raise `active`. The flags are sequentially consistent, so a run is a sequence of their single loads and
-- stores; the release stores of 0 to `active` are one of these, as only the sender writes that flag.
pub mod Closed
use vtr.Prelude.{Bool, true, false, if◌then◌else◌}

-- Where the sender's thread is: outside, behind the store of 1, behind a load of `closed` that refuses it, with a
-- `Publication` of the flag, or with `Publication(None)`.
pub data Sender : Type 0 where
  outside stored refused publishing unmarked : Sender

-- Where the thread of `close` is: before it, in its loop, or behind it.
pub data Closer : Type 0 where
  before polling returned : Closer

pub record Gate : Type 0 where
  pub active : Bool
  pub closed : Bool
  pub independent_stop : Bool
  pub sender : Sender
  pub closer : Closer

-- `make_channel`
abbrev pub open_gate : Bool → Gate
open_gate independent_stop = record {
  active = false;
  closed = false;
  independent_stop = independent_stop;
  sender = outside;
  closer = before;
}

-- `enable_independent_stop`
unfoldable pub enable_independent_stop : Gate → Gate
enable_independent_stop g = record g { independent_stop = true }

-- `if !independent_stop`: the load of `closed` alone decides.
unfoldable pub enter_exclusive : Gate → Gate
enter_exclusive g = record g { sender = if g.closed then outside else unmarked }

-- `self.active.0.store(1, SeqCst)`
unfoldable pub enter_store : Gate → Gate
enter_store g = record g { active = true; sender = stored }

-- `if self.closed.load(SeqCst)`: refused, or a `Publication`.
unfoldable pub enter_load : Gate → Gate
enter_load g = record g { sender = if g.closed then refused else publishing }

-- `self.active.0.store(0, Release)` before the error, and the drop of a `Publication`.
unfoldable pub leave : Gate → Gate
leave g = record g { active = false; sender = outside }

-- The drop of `Publication(None)`.
unfoldable pub leave_unmarked : Gate → Gate
leave_unmarked g = record g { sender = outside }

-- `self.closed.store(true, SeqCst)`
unfoldable pub close_store : Gate → Gate
close_store g = record g { closed = true; closer = polling }

-- One load of `active` in the loop.
unfoldable pub close_load : Gate → Gate
close_load g = record g { closer = if g.active then polling else returned }
