-- ===== src/Setup/Hydrator.antt =====
-- cmd/onprem/main.go up to `Consume`, and the constructors of internal/onprem and of the writer.
use assisted_events_stream.Prelude.{ℕ, String, ◌≡◌, refl, ap, Bool, true, false, Option, none, some}
use assisted_events_stream.Types.{Error}
use assisted_events_stream.Stream.Login.{ReaderConfig, ProducerConfig, new_producer}
use assisted_events_stream.Setup.{
  ℤ, pos, negsuc, Started, started, crashed, and_then, or_refuse, or_exit, Processed, value_of,
  ChannelsConfig, Environment,
}
use assisted_events_stream.Setup.Consumer.{kafka_reader_from_env}

pub record FileDownloader : Type 0 where
  pub download_dir : String

pub record EventExtractor : Type 0 where
  pub work_dir : String
  pub events_buffer_size : ℤ

-- The parts of an `OnPremEventsHydrator`, and the capacities of its channels.
pub record Parts : Type 0 where
  pub download_capacity : ℕ
  pub untar_capacity : ℕ
  pub done_capacity : ℕ
  pub downloader : FileDownloader
  pub event_extractor : EventExtractor
  pub writer : ProducerConfig

-- `NewFileDownloaderFromEnv`
unfoldable pub new_file_downloader_from_env : Environment → Started FileDownloader
unfolding and_then or_refuse value_of
new_file_downloader_from_env env =
    and_then (or_refuse (value_of env.download_dir))
      λ download_dir. started (record { download_dir = download_dir })

-- `NewEventExtractorFromEnv`
unfoldable pub new_event_extractor_from_env : Environment → ChannelsConfig → Started EventExtractor
unfolding and_then or_refuse value_of
new_event_extractor_from_env env channels = and_then (or_refuse (value_of env.work_dir)) λ work_dir.
    started
      (record { work_dir = work_dir; events_buffer_size = channels.event_channel_buffer_size })

-- The capacity of `make(chan T, size)`: it panics on a negative size, and where `fits` says that the
-- memory cannot hold so many values.
if_fits : Bool → ℕ → Started ℕ
if_fits true n = started n
if_fits false n = crashed

unfoldable pub make_channel : (ℕ → Bool) → ℤ → Started ℕ
unfolding if_fits
make_channel fits (pos n) = if_fits (fits n) n
make_channel fits (negsuc n) = crashed

pub make_channel-started :
    (fits : ℕ → Bool) (size : ℤ) (n : ℕ)
    → make_channel fits size ≡ started n
    → (size ≡ pos n) × (fits n ≡ true)
unfolding make_channel
make_channel-started fits (negsuc k) n h = cc
make_channel-started fits (pos k) n h = by_fits (fits k) refl h
  where
    by_fits :
        (b : Bool) → fits k ≡ b → if_fits b k ≡ started n → ((pos k) ≡ pos n) × (fits n ≡ true)
    by_fits true e h' = let same : k ≡ n = cc in (ap pos same, rw (← same) e)
    by_fits false e h' = cc

-- `go onprem.Listen()`: Listen reads the logger of its receiver, so on nil its goroutine panics, and
-- ends the process, as ProcessMessage on nil does.
unfoldable pub go_listen : Option Parts → Started Parts
go_listen none = crashed
go_listen (some parts) = started parts

-- What is read of the libraries and of the runtime: `scram.Mechanism` for SHA-512, by the error that
-- it returns, `Validate` of a `kafka.ReaderConfig`, and the memory for channels.
module _ (scram : String → String → Option Error) (validate : ReaderConfig → Option Error)
    (fits : ℕ → Bool) where
  -- `NewWriter`
  unfoldable pub new_writer : Environment → Started ProducerConfig
  unfolding new_producer value_of or_refuse and_then
  new_writer env =
      and_then (or_refuse (value_of env.kafka)) λ config. or_refuse (new_producer scram config)

  -- The rest of `NewOnPremEventsHydrator`, once the sizes of the channels are read.
  unfoldable pub with_channels : Environment → ChannelsConfig → Started Parts
  unfolding new_file_downloader_from_env new_event_extractor_from_env new_writer make_channel
      or_exit and_then
  with_channels env channels =
      and_then (make_channel fits channels.download_channel_buffer_size) λ downloads.
        and_then (make_channel fits channels.untar_channel_buffer_size) λ untars.
          and_then (or_exit (new_file_downloader_from_env env)) λ downloader.
            and_then (or_exit (new_event_extractor_from_env env channels)) λ extractor.
              and_then (or_exit (new_writer env)) λ writer. started (record {
                download_capacity = downloads;
                untar_capacity = untars;
                done_capacity = 1;
                downloader = downloader;
                event_extractor = extractor;
                writer = writer;
              })

  unfoldable pub if_channels : Environment → Processed ChannelsConfig → Started (Option Parts)
  unfolding with_channels and_then
  if_channels env (channels, some e) = started none
  if_channels env (channels, none) =
      and_then (with_channels env channels) λ parts. started (some parts)

  -- `NewOnPremEventsHydrator`; it returns nil if the sizes of the channels cannot be read.
  unfoldable pub new_on_prem_events_hydrator : Environment → Started (Option Parts)
  unfolding if_channels
  new_on_prem_events_hydrator env = if_channels env env.channels

  -- `main` of cmd/onprem up to `Consume`
  unfoldable pub start_hydrator : Environment → Started (ReaderConfig × Parts)
  unfolding new_on_prem_events_hydrator go_listen or_exit and_then
  start_hydrator env = and_then (or_exit (kafka_reader_from_env scram validate env)) λ reader.
      and_then (new_on_prem_events_hydrator env)
        λ hydrator. and_then (go_listen hydrator) λ parts. started (reader, parts)
