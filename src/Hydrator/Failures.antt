-- ===== src/Hydrator/Failures.antt =====
-- How many messages of the hydrator have a download or an extraction that fails.
use assisted_events_stream.Prelude.{
  ℕ, ◌+◌, ◌≡◌, Bool, List, [], ◌∷◌, ◌++◌, arith, if◌then◌else◌, String,
}
use assisted_events_stream.Types.{EventEnvelope, Message, Result, ok, err}
use assisted_events_stream.Hydrator.{Hydrator, DownloadUrlMessage, FilenameMessage}

abbrev pub total_of : {A : Type 0} → (A → ℕ) → List A → ℕ
total_of weight [] = 0
total_of weight (x ∷ xs) = weight x + total_of weight xs

pub total_of-append :
    {A : Type 0} (weight : A → ℕ) (xs ys : List A)
    → total_of weight (xs ++ ys) ≡ total_of weight xs + total_of weight ys
total_of-append weight [] ys = omega arith
total_of-append weight (x ∷ xs) ys = omega (arith, total_of-append weight xs ys)

-- What each call of DownloadFile and of ExtractEvents returns, when it does.
module _ (downloaded : DownloadUrlMessage → Result String)
    (extracted : FilenameMessage → Result (List EventEnvelope)) where
  abbrev pub if_failed : {A : Type 0} → (Message → Bool) → Message → Result A → ℕ
  if_failed p msg (ok a) = 0
  if_failed p msg (err e) = if p msg then 1 else 0

  abbrev pub file_fails : (Message → Bool) → FilenameMessage → ℕ
  file_fails p f = if_failed p f.msg (extracted f)

  abbrev pub after_download : (Message → Bool) → Message → Result String → ℕ
  after_download p msg (ok filename) = file_fails p (record { filename = filename; msg = msg })
  after_download p msg (err e) = if p msg then 1 else 0

  abbrev pub download_fails : (Message → Bool) → DownloadUrlMessage → ℕ
  download_fails p d = after_download p d.msg (downloaded d)

  -- How many of the messages that wait or are worked on have the property, and a download or an
  -- extraction that fails.
  abbrev pub failing : (Message → Bool) → Hydrator → ℕ
  failing p h =
      total_of (download_fails p) h.download_channel
      + total_of (download_fails p) h.downloading
      + total_of (file_fails p) h.untar_channel
      + total_of (file_fails p) h.unpacking
