-- ===== src/Stream/Reader.antt =====
-- pkg/stream/reader.go: the loop of Consume, over what each of its rounds finds.
use assisted_events_stream.Prelude.{Option, none, some, List, [], ◌∷◌}
use assisted_events_stream.Types.{Error, Message, Outcome, returned, panicked}

-- A round of the loop finds the quit channel closed, or FetchMessage gives an error or a message.
pub data Round : Type 0 where
  quit : Round
  fetch_failed : Error → Round
  fetched : Message → Round

-- How far the loop has come: it waits for its next round, it has returned an `error`, or a panic of
-- the handler has ended the process.
pub data Progress : Type 0 where
  waiting : Progress
  finished : Option Error → Progress
  crashed : Progress

module _ {ℓ} {W : Type ℓ} where
  abbrev pub after_message : W × Outcome → (W → W × Progress) → W × Progress
  after_message (w, returned none) next = next w
  after_message (w, returned (some e)) next = (w, finished (some e))
  after_message (w, panicked) next = (w, crashed)

  -- `Consume`, with `processMessageFn` as a function on the state that it changes.
  unfoldable pub consume : (Message → W → W × Outcome) → List Round → W → W × Progress
  consume process [] w = (w, waiting)
  consume process (quit ∷ rounds) w = (w, finished none)
  consume process (fetch_failed e ∷ rounds) w = (w, finished (some e))
  consume process (fetched msg ∷ rounds) w =
      after_message (process msg w) λ w'. consume process rounds w'

abbrev pub fetched_all : List Message → List Round
fetched_all [] = []
fetched_all (msg ∷ msgs) = fetched msg ∷ fetched_all msgs
