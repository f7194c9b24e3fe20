-- ===== src/Publishing/Enqueue/Key.antt =====
-- The idempotency key of backend/app/publishing/queue_manager.py.
use ai_video_clip_processing.Base.{
  ◌≡◌, Bool, true, false, [], ◌∷◌, ◌++◌, ◌==◌, arith, Text, text_eq_iff, codes, any, any-append,
}
use ai_video_clip_processing.Publishing.Enqueue.{is_platform, idempotency_key}

-- `":" in text`
abbrev pub has_colon : Text → Bool
has_colon = any (λ c. c == b':')

first_colon :
    (s t r q : Text)
    → has_colon s ≡ false
    → has_colon t ≡ false
    → s ++ (b':' ∷ r) ≡ t ++ (b':' ∷ q)
    → (s ≡ t) × (r ≡ q)
first_colon [] [] r q h k e = ground (arith, e)
first_colon [] (d ∷ t) r q h k e = ground (arith, e, k)
first_colon (c ∷ s) [] r q h k e = ground (arith, e, h)
first_colon (c ∷ s) (d ∷ t) r q h k e = ground (arith, e, h, k, first_colon s t r q)

last_colon :
    (s t r q : Text)
    → has_colon r ≡ false
    → has_colon q ≡ false
    → s ++ (b':' ∷ r) ≡ t ++ (b':' ∷ q)
    → (s ≡ t) × (r ≡ q)
last_colon [] [] r q h k e = ground (arith, e)
last_colon [] (d ∷ t) r q h k e = ground (arith, e, h, any-append (λ c. c == b':') t (b':' ∷ q))
last_colon (c ∷ s) [] r q h k e = ground (arith, e, k, any-append (λ c. c == b':') s (b':' ∷ r))
last_colon (c ∷ s) (d ∷ t) r q h k e = ground (arith, e, h, k, last_colon s t r q)

platform-has_colon : (p : Text) → is_platform p ≡ true → has_colon p ≡ false
platform-has_colon p h = ground (
  arith,
  text_eq_iff (codes "youtube") p,
  text_eq_iff (codes "facebook") p,
  text_eq_iff (codes "instagram") p,
)

-- Of jobs whose identifiers hold no colon, and of known platforms, two equal keys are of the same
-- job, clip and platform, also where a clip's identifier holds colons.
pub idempotency_key-injective :
    (job_id job_id' clip_id clip_id' platform platform' : Text)
    → has_colon job_id ≡ false
    → has_colon job_id' ≡ false
    → is_platform platform ≡ true
    → is_platform platform' ≡ true
    → idempotency_key job_id clip_id platform ≡ idempotency_key job_id' clip_id' platform'
    → (job_id ≡ job_id') × (clip_id ≡ clip_id') × (platform ≡ platform')
idempotency_key-injective job_id job_id' clip_id clip_id' platform platform' h k p q e =
    let (same_job, rest) =
      first_colon job_id job_id' (clip_id ++ (codes ":" ++ platform))
        (clip_id' ++ (codes ":" ++ platform')) h k e in
    let (same_clip, same_platform) =
      last_colon clip_id clip_id' platform platform' (platform-has_colon platform p)
        (platform-has_colon platform' q) rest in
    (same_job, same_clip, same_platform)
