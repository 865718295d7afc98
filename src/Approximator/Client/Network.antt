-- ===== src/Approximator/Client/Network.antt =====
-- network_receiver and network_sender of client_logic.cpp. The socket calls are given by their
-- results.
pub mod Framing
use computer_networks_course.Prelude.{
  ℕ, zero, suc, ◌+◌, Bool, true, false, Option, none, some, List, [], ◌∷◌, ◌++◌, if◌then◌else◌,
  length, take, drop, Text, codes,
}
use computer_networks_course.Outcome.{Outcome, done, fatal, ◌>>=◌, or_fault}
use computer_networks_course.Approximator.ApproxServer.Framing.{next_line}
use computer_networks_course.Approximator.Constants.{Double, crlf}
use computer_networks_course.Approximator.MsgParser.Message.{Message, create_message}
use computer_networks_course.Approximator.Client.Queue.{push, try_pop_for}
use computer_networks_course.Approximator.Client.State.{Client, log_stderr}

-- What `recv` does: an error, the timeout (EAGAIN), the end of the connection, or bytes.
pub data Receive : Type 0 where
  recv_error recv_timeout recv_closed : Receive
  recv_bytes : Text → Receive

-- The locals of network_receiver.
pub record Receiver : Type 0 where
  pub recv_buffer : Text
  pub is_first_message : Bool

-- What `write` does: it writes some bytes, or returns 0 or less with `errno` at EAGAIN or not.
pub data Write : Type 0 where
  wrote : ℕ → Write
  write_timeout write_error : Write

module _ {F : Type 0} ⦃d : Double F⦄ where
  -- A line of the server, without its CRLF.
  unfoldable pub receive_line : Bool → Text → Client F → Outcome (Client F)
  receive_line is_first_message line c = elim (create_message (line ++ crlf)) [
    | some msg ↦ done (record c { incoming_messages = push msg c.incoming_messages })
    | none ↦
        if is_first_message
        then fatal
        else done
            (log_stderr (codes "bad message from " ++ (c.full_info ++ (codes ": " ++ line))) c)
  ]

  -- The loop over the lines of the buffer, for more fuel than the buffer has characters.
  unfoldable pub receive_lines : ℕ → Receiver → Client F → Outcome (Receiver × Client F)
  receive_lines zero r c = done (r, c)
  receive_lines (suc fuel) r c = elim (next_line r.recv_buffer) [
    | none ↦ done (r, c)
    | some (line, rest) ↦ do
      c' ← receive_line r.is_first_message line c
      receive_lines fuel (record { recv_buffer = rest; is_first_message = false }) c'
  ]

  -- `recv_buffer.append`, and the loop over the lines.
  unfoldable pub receive_bytes : Text → Receiver → Client F → Outcome (Receiver × Client F)
  receive_bytes bytes r c =
      let recv_buffer = r.recv_buffer ++ bytes in
      receive_lines (length recv_buffer + 1) (record r { recv_buffer = recv_buffer }) c

  -- A turn of network_receiver behind the test of `game_over`; `fatal` is syserr.
  unfoldable pub network_receiver : Receive → Receiver → Client F → Outcome (Receiver × Client F)
  network_receiver recv_error r c = fatal
  network_receiver recv_timeout r c = done (r, c)
  network_receiver recv_closed r c = done (r, record c { game_over = true })
  network_receiver (recv_bytes bytes) r c = receive_bytes bytes r c

  -- The end of network_receiver.
  unfoldable pub receiver_end : Receiver → Client F → Client F
  receiver_end r c = elim (r.recv_buffer) [
    | [] ↦ c
    | x ∷ s ↦
        log_stderr (codes "partial message remaining in buffer at disconnection: " ++ (x ∷ s)) c
  ]

module _ {F : Type 0} where
  -- What the queue gives: the text to write, if there is a message; following a null pointer is a
  -- fault.
  unfoldable pub take_entry :
      Option (Option (Message F) × List (Option (Message F)))
      → Client F
      → Outcome (Option Text × Client F)
  take_entry none c = done (none, c)
  take_entry (some (entry, rest)) c = do
    msg ← or_fault entry
    done (some msg.raw_message, record c { outgoing_messages = rest })

  -- The head of the loop of network_sender.
  unfoldable pub next_outgoing : Client F → Outcome (Option Text × Client F)
  next_outgoing c = take_entry (try_pop_for c.outgoing_messages) c

  -- A turn of the inner loop of network_sender, with bytes left: what is still left of them.
  unfoldable pub write_some : Write → Client F → Text → Outcome Text
  write_some (wrote n) c left = done (drop n left)
  write_some write_timeout c left = if c.game_over then done [] else fatal
  write_some write_error c left = fatal
