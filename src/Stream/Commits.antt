-- ===== src/Stream/Commits.antt =====
-- pkg/stream/reader.go: the goroutine that commits what was acknowledged.
use assisted_events_stream.Prelude.{Option, List, [], ◌∷◌}
use assisted_events_stream.Types.{Error, Message}

-- CommitMessages of a `kafka.Reader`, by what it changes and its error. The reader is set up with a
-- CommitInterval of ten seconds, so no error means that the commit is queued: the reader sends to the
-- broker, at each interval and when it is closed, what was queued since.
pub record Committer : Type 1 where
  pub State : Type 0
  pub commit_messages : Message → State → State × Option Error

module _ (reader : Committer) where
  open reader use {State}

  -- `listenForCommit` on the messages that were acknowledged; an error is only logged
  unfoldable pub listen_for_commit : List Message → State → State
  listen_for_commit [] s = s
  listen_for_commit (msg ∷ acks) s = listen_for_commit acks (reader.commit_messages msg s).0
