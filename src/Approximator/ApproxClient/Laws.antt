-- ===== src/Approximator/ApproxClient/Laws.antt =====
-- The client from its command line on comes to no fault.
use computer_networks_course.Prelude.{ℕ, ◌≡◌, Bool, Text}
use computer_networks_course.Approximator.Constants.{Double}
use computer_networks_course.Approximator.MsgParser.Printer.Scoring.{IsId}
use computer_networks_course.Approximator.Client.Threads.{System, start}

module _ {F : Type 0} ⦃d : Double F⦄ where
  -- What the threads start from.
  abbrev Started : System F → Type 0
  Started s =
      (n : ℕ) × (player_id : Text) × (auto : Bool) × (ip : Text) × (port : ℕ) × IsId player_id
      × (s ≡ start n player_id auto ip port)
