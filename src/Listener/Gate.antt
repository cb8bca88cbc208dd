-- ===== src/Listener/Gate.antt =====
-- crates/partly-proxy-lib/src/listener.rs: `pause_gate`. What a waiting request sees of the pause
-- flag is a sequence: each `changed()` with the value that is borrowed behind it, or the loss of the
-- sender. A receiver may miss values in between; then they are not in the sequence.
use partly_proxy.Base.{Bool, true, false, Option, none, some, List, [], ◌∷◌, ◌++◌, ◌≡◌, refl, All}

pub data Change : Type 0 where
  flag_is : Bool → Change
  sender_dropped : Change

-- The changes behind those that the gate took; `none` is a gate that still blocks.
unfoldable pub pause_gate : Bool → List Change → Option (List Change)
pause_gate false changes = some changes
pause_gate true [] = none
pause_gate true (sender_dropped ∷ changes) = some changes
pause_gate true (flag_is paused ∷ changes) = pause_gate paused changes

-- The change leaves a gate that blocks as it is.
abbrev pub StaysPaused : Change → Type 0
StaysPaused (flag_is paused) = paused ≡ true
StaysPaused sender_dropped = ⊥

-- The gate blocks for as long as every change that it sees says that the upstream is paused; the first
-- change that says otherwise, or the loss of the sender, lets the request through, and a gate that
-- is not paused takes no change at all.
pub pause_gate_blocks :
    (before later : List Change)
    → All StaysPaused before
    → (pause_gate true before ≡ none)
      × (pause_gate true (before ++ flag_is false ∷ later) ≡ some later)
      × (pause_gate true (before ++ sender_dropped ∷ later) ≡ some later)
      × (pause_gate false before ≡ some before)
unfolding pause_gate
pause_gate_blocks [] later h = (refl, refl, refl, refl)
pause_gate_blocks (flag_is true ∷ before) later (e, h) =
    let (blocks, opens, dropped, _) = pause_gate_blocks before later h in
    (blocks, opens, dropped, refl)
pause_gate_blocks (flag_is false ∷ before) later (e, h) = absurd (cc e)
pause_gate_blocks (sender_dropped ∷ before) later (e, h) = absurd e
