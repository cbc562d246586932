-- ===== src/Setup/Listening.antt =====
-- When the hydrator goes on to listen and to consume.
use assisted_events_stream.Prelude.{ℕ, String, ◌≡◌, ◌≢◌, refl, Bool, true, Option, none, some}
use assisted_events_stream.Types.{Error, ok}
use assisted_events_stream.Stream.Login.{
  ReaderConfig, ProducerConfig, new_kafka_reader, new_producer,
}
use assisted_events_stream.Setup.{
  pos, started, crashed, and_then, or_refuse, or_crash, or_exit, Processed, ChannelsConfig,
  Environment, and_then-started, or_exit-started, or_refuse-started, value_of-ok, value_of-read,
}
use assisted_events_stream.Setup.Consumer.{kafka_reader_from_env, kafka_reader_from_env-started}
use assisted_events_stream.Setup.Hydrator.{
  FileDownloader, EventExtractor, Parts, new_file_downloader_from_env, new_event_extractor_from_env,
  make_channel, make_channel-started, new_writer, with_channels, if_channels,
  new_on_prem_events_hydrator, go_listen, start_hydrator,
}

module _ (scram : String → String → Option Error) (validate : ReaderConfig → Option Error)
    (fits : ℕ → Bool) (env : Environment) where
  -- What has to go well.
  pub record CanListen : Type 0 where
    pub kafka : env.kafka.1 ≡ none
    pub reader : ReaderConfig
    pub login : new_kafka_reader scram validate env.kafka.0 ≡ some (ok reader)
    pub channels : env.channels.1 ≡ none
    pub downloads : ℕ
    pub downloads_size : env.channels.0.download_channel_buffer_size ≡ pos downloads
    pub downloads_fit : fits downloads ≡ true
    pub untars : ℕ
    pub untars_size : env.channels.0.untar_channel_buffer_size ≡ pos untars
    pub untars_fit : fits untars ≡ true
    pub download_dir : env.download_dir.1 ≡ none
    pub work_dir : env.work_dir.1 ≡ none
    pub writer : ProducerConfig
    pub writer_login : new_producer scram env.kafka.0 ≡ ok writer

  -- The hydrator then.
  abbrev pub hydrator : CanListen → ReaderConfig × Parts
  hydrator c = (
    c.reader,
    record {
      download_capacity = c.downloads;
      untar_capacity = c.untars;
      done_capacity = 1;
      downloader = record { download_dir = env.download_dir.0 };
      event_extractor = record {
        work_dir = env.work_dir.0;
        events_buffer_size = env.channels.0.event_channel_buffer_size;
      };
      writer = c.writer;
    },
  )

  if_channels-read :
      (p : Processed ChannelsConfig)
      → p.1 ≡ none
      → if_channels scram validate fits env p
        ≡ and_then (with_channels scram validate fits env p.0) (λ parts. started (some parts))
  unfolding if_channels
  if_channels-read (channels, none) h = refl
  if_channels-read (channels, some e) h = cc

  if_channels-nil :
      (p : Processed ChannelsConfig)
      → p.1 ≢ none
      → if_channels scram validate fits env p ≡ started none
  unfolding if_channels
  if_channels-nil (channels, none) n = absurd (n refl)
  if_channels-nil (channels, some e) n = refl

  CanListen-start : (c : CanListen) → start_hydrator scram validate fits env ≡ started (hydrator c)
  unfolding start_hydrator new_on_prem_events_hydrator kafka_reader_from_env with_channels
      new_file_downloader_from_env new_event_extractor_from_env new_writer make_channel go_listen
      and_then or_refuse or_crash or_exit
  CanListen-start c =
      rw
        (
          value_of-read env.kafka c.kafka,
          c.login,
          if_channels-read env.channels c.channels,
          c.downloads_size,
          c.downloads_fit,
          c.untars_size,
          c.untars_fit,
          value_of-read env.download_dir c.download_dir,
          value_of-read env.work_dir c.work_dir,
          value_of-read env.kafka c.kafka,
          c.writer_login,
        )
        refl

  go_listen-started :
      (o : Option Parts) (parts : Parts) → go_listen o ≡ started parts → o ≡ some parts
  unfolding go_listen
  go_listen-started none parts h = cc
  go_listen-started (some p) parts h = cc

  if_channels-started :
      (p : Processed ChannelsConfig) (parts : Parts)
      → if_channels scram validate fits env p ≡ started (some parts)
      → (p.1 ≡ none) × (with_channels scram validate fits env p.0 ≡ started parts)
  unfolding if_channels
  if_channels-started (channels, some e) parts h = cc
  if_channels-started (channels, none) parts h =
      let (parts', made, same) =
        and_then-started (with_channels scram validate fits env channels)
          (λ (x : Parts). started (some x)) (some parts) h in
      let parts_same : parts' ≡ parts = cc in (refl, rw parts_same at made)

  new_writer-started :
      (w : ProducerConfig)
      → new_writer scram validate fits env ≡ started w
      → new_producer scram env.kafka.0 ≡ ok w
  unfolding new_writer
  new_writer-started w h =
      let (config, read, made) = and_then-started _ _ w h in
      let (no_error, same) = value_of-ok env.kafka config (or_refuse-started _ config read) in
      rw same (or_refuse-started _ w made)

  download_dir-read :
      (d : FileDownloader)
      → new_file_downloader_from_env env ≡ started d
      → env.download_dir.1 ≡ none
  unfolding new_file_downloader_from_env
  download_dir-read d h =
      let (dir, read, made) = and_then-started _ _ d h in
      (value_of-ok env.download_dir dir (or_refuse-started _ dir read)).0

  work_dir-read :
      (channels : ChannelsConfig) (x : EventExtractor)
      → new_event_extractor_from_env env channels ≡ started x
      → env.work_dir.1 ≡ none
  unfolding new_event_extractor_from_env
  work_dir-read channels x h =
      let (dir, read, made) = and_then-started _ _ x h in
      (value_of-ok env.work_dir dir (or_refuse-started _ dir read)).0

  start-CanListen :
      (x : ReaderConfig × Parts) → start_hydrator scram validate fits env ≡ started x → CanListen
  unfolding start_hydrator new_on_prem_events_hydrator with_channels
  start-CanListen x h =
      let (r, read, rest) = and_then-started _ _ x h in
      let (o, made, more) =
        and_then-started (if_channels scram validate fits env env.channels)
          (λ (hydrator : Option Parts). and_then (go_listen hydrator) λ parts. started (r, parts)) x
          rest in
      let (parts, listened, last) = and_then-started _ _ x more in
      let (kafka, login) =
        kafka_reader_from_env-started scram validate env r (or_exit-started _ r read) in
      let (channels, with) =
        if_channels-started env.channels parts (rw (go_listen-started o parts listened) at made) in
      let (downloads, downloads_made, with1) = and_then-started _ _ parts with in
      let (untars, untars_made, with2) = and_then-started _ _ parts with1 in
      let (downloader, downloader_made, with3) = and_then-started _ _ parts with2 in
      let (extractor, extractor_made, with4) = and_then-started _ _ parts with3 in
      let (writer, writer_made, done) = and_then-started _ _ parts with4 in
      let (downloads_size, downloads_fit) = make_channel-started fits _ downloads downloads_made in
      let (untars_size, untars_fit) = make_channel-started fits _ untars untars_made in
      record {
        kafka = kafka;
        reader = r;
        login = login;
        channels = channels;
        downloads = downloads;
        downloads_size = downloads_size;
        downloads_fit = downloads_fit;
        untars = untars;
        untars_size = untars_size;
        untars_fit = untars_fit;
        download_dir = download_dir-read downloader (or_exit-started _ downloader downloader_made);
        work_dir =
            work_dir-read env.channels.0 extractor (or_exit-started _ extractor extractor_made);
        writer = writer;
        writer_login = new_writer-started writer (or_exit-started _ writer writer_made);
      }

  -- The hydrator goes on to listen and to consume exactly if the configuration of kafka and the sizes
  -- of the channels can be read, a reader can be made, of a configuration that kafka.NewReader does
  -- not panic on, both channels can be made, the directories can be read, and a writer can be made;
  -- it then has these parts. If a reader is made and the sizes cannot be read, the process panics.
  pub start_hydrator_iff :
      ((x : ReaderConfig × Parts) → start_hydrator scram validate fits env ≡ started x → CanListen)
      × ((c : CanListen) → start_hydrator scram validate fits env ≡ started (hydrator c))
      × ((r : ReaderConfig)
          → kafka_reader_from_env scram validate env ≡ started r
          → env.channels.1 ≢ none
          → start_hydrator scram validate fits env ≡ crashed)
  unfolding start_hydrator new_on_prem_events_hydrator go_listen or_exit and_then
  start_hydrator_iff = (start-CanListen, CanListen-start, nil-crashed)
    where
      nil-crashed :
          (r : ReaderConfig)
          → kafka_reader_from_env scram validate env ≡ started r
          → env.channels.1 ≢ none
          → start_hydrator scram validate fits env ≡ crashed
      nil-crashed r read n = rw (read, if_channels-nil env.channels n) refl
