-- ===== src/Routes/Examples/Files.antt =====
-- The theorems about uploads, the report on the platforms, the sweeps and ffprobe at one input each.
use ai_video_clip_processing.Base.{
  ◌==◌, ◌≡◌, arith, refl, true, false, none, some, List, [], ◌∷◌, Text, text_eq, codes, any, In,
  inl, pos, dict_get,
}
use ai_video_clip_processing.Errors.{ok}
use ai_video_clip_processing.Samples.{sample_video}
use ai_video_clip_processing.Schemas.Json.{Json, str, arr, obj, nil, cons, Fields, end, field}
use ai_video_clip_processing.Jobs.Models.{VideoMetadata}
use ai_video_clip_processing.Jobs.Manager.{running}
use ai_video_clip_processing.Storage.Cleanup.{Entry}
use ai_video_clip_processing.Publishing.Rows.{SocialAccount, connected, expired, Db}
use ai_video_clip_processing.Publishing.CostGuard.{Credentials, not_available}
use ai_video_clip_processing.Publishing.Worker.{get_connected_account}
use ai_video_clip_processing.Routes.Queue.{get_capabilities}
use ai_video_clip_processing.Routes.Queue.Latest.{youtube_status, get_capabilities-hides}
use ai_video_clip_processing.Routes.Uploads.{UploadRun, upload_video}
use ai_video_clip_processing.Routes.Uploads.Bounded.{LeavesFile, Fits, upload_video-bounded}
use ai_video_clip_processing.Retention.{Swept, run_once, cleanup_main, cleanup_main-active}
use ai_video_clip_processing.Probe.{Ffprobe, exited, probe_video, printed}
use ai_video_clip_processing.Probe.Streams.{Describes, probe_video-streams}

-- the third chunk would make the file too large
abbrev upload : UploadRun
upload = record {
  suffix = codes ".mp4";
  stored = 70 ∷ [];
  chunks = 10 ∷ 10 ∷ 10 ∷ [];
  writes = λ n. true;
  probed = λ size. ok (sample_video 9);
}

upload_video-bounded_example : LeavesFile (Fits 25 100 (70 ∷ [])) (upload_video 25 100 upload)
upload_video-bounded_example = upload_video-bounded 25 100 upload

abbrev account : Text → SocialAccount
account id = record {
  id = id;
  platform = codes "youtube";
  account_id = id;
  account_name = [];
  access_token_encrypted = codes "t";
  refresh_token_encrypted = none;
  token_expires_at = none;
  account_status = connected;
  page_id = none;
  ig_business_account_id = none;
  updated_at = 0;
}

abbrev old_channel : SocialAccount
old_channel = record (account (codes "b")) { account_status = expired }

abbrev two_channels : Db
two_channels = record {
  publishing_queue = [];
  publishing_attempts = [];
  social_accounts = account (codes "a") ∷ old_channel ∷ [];
}

abbrev credentials : Credentials
credentials = record {
  google_oauth_client_id = codes "id";
  google_oauth_client_secret = codes "secret";
  meta_app_id = [];
  meta_app_secret = [];
  meta_login_config_id = [];
  public_base_url = [];
}

get_capabilities-hides_example :
    (youtube_status (get_capabilities credentials two_channels) ≡ some not_available)
    × ((found : SocialAccount) × (get_connected_account (codes "youtube") two_channels
          ≡ some found))
get_capabilities-hides_example =
    get_capabilities-hides credentials two_channels (account (codes "a") ∷ []) (account (codes "a"))
      old_channel refl refl refl (inl refl) refl refl

abbrev job_entry : Entry
job_entry = record { name = codes "j1"; is_dir = true; st_mtime = some 0 }

abbrev swept : Swept
swept = record {
  jobs_dir = job_entry ∷ [];
  uploads_dir = [];
  job_manager = record { jobs = []; tasks = (codes "j1", running) ∷ []; index = []; saved = [] };
  ingests = [];
}

task_runs : dict_get (codes "j1") swept.job_manager.tasks ≡ some running
unfolding dict_get text_eq
task_runs = refl

cleanup_main-active_example :
    (¬ (In job_entry (cleanup_main (λ e. true) 24 100000 swept.jobs_dir []).1.0))
    × In (codes "j1") (cleanup_main (λ e. true) 24 100000 swept.jobs_dir []).0.0
    × In job_entry (run_once (λ e. true) 24 100000 swept).1.jobs_dir
    × (any (λ r. text_eq r (codes "j1")) (run_once (λ e. true) 24 100000 swept).0.0 ≡ false)
    × (dict_get (codes "j1") (run_once (λ e. true) 24 100000 swept).1.job_manager.jobs
        ≡ dict_get (codes "j1") swept.job_manager.jobs)
cleanup_main-active_example =
    cleanup_main-active (λ e. true) 24 100000 swept job_entry running (omega arith) (inl refl) refl
      refl refl task_runs refl

-- ffprobe on a file with an audio stream before that of the video
abbrev stream : Fields
stream =
    field (codes "codec_type") (str (codes "video"))
      (field (codes "codec_name") (str (codes "h264")) end)

abbrev sound : Fields
sound =
    field (codes "codec_type") (str (codes "audio"))
      (field (codes "codec_name") (str (codes "aac")) end)

abbrev format : Fields
format = field (codes "duration") (str (codes "9.0")) end

abbrev output : Json
output = obj (
    field (codes "streams") (arr (cons (obj sound) (cons (obj stream) nil)))
      (field (codes "format") (obj format) end))

abbrev ffprobe : Ffprobe
ffprobe = record {
  exists = true;
  st_size = 500;
  ending = exited (pos 0) [];
  loads = λ t. some output;
  microseconds = λ j. some 9000000;
  int_of = λ j. some (pos 0);
  repr_of = λ j. codes "?";
  float_of = λ t. none;
}

abbrev loud_video : VideoMetadata
loud_video = record {
  duration_seconds = 9000000;
  width = 0;
  height = 0;
  fps = (0, 1);
  video_codec = codes "h264";
  audio_codec = some (codes "aac");
  audio_present = true;
  size_bytes = 500;
}

probed : probe_video ffprobe ≡ ok loud_video
unfolding probe_video text_eq
probed = refl

probe_video-streams_example :
    (true ≡ true)
    × ((500 == 0) ≡ false)
    × ((printed_streams : List Fields) × (data' : Fields) × (printed ffprobe
          ≡ ok (printed_streams, data'))
        × Describes ffprobe printed_streams data' loud_video)
probe_video-streams_example = probe_video-streams ffprobe loud_video probed
