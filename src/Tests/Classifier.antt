-- ===== src/Tests/Classifier.antt =====
-- Runs of the classifier service and its theorems at concrete inputs.
use api_gateways.Base.{
  ℕ, zero, suc, true, false, none, some, List, [], ◌∷◌, ◌++◌, Text, codes, text_eq, strip,
  if◌then◌else◌, ltb, ◌≡◌, refl, arith, length,
}
use api_gateways.Base.Json.{str, obj, end, field}
use api_gateways.Errors.{ok}
use api_gateways.Classifier.Outside.{cache, model, ClassifyResponse}
use api_gateways.Classifier.Lru.{find, lru_get, lru_set}
use api_gateways.Classifier.Lru.Entries.{Distinct}
use api_gateways.Classifier.Lru.Recent
use api_gateways.Classifier.Cache
use api_gateways.Classifier.Llm
use api_gateways.Classifier.Llm.{Post, transient, unexpected, answered, LlmResult}
use api_gateways.Classifier.Handler
use api_gateways.Classifier.Handler.{App, ClassifyRequest, State}
use api_gateways.Tests.ClassifierData.{digest, outside, store, ordered}

abbrev entry : List (Text × ℕ)
entry = (codes "b", 2) ∷ (codes "c", 3) ∷ []

lru_set_full :
    lru_set Cache.Text-discrete 2 (codes "d") 4 entry ≡ (codes "c", 3) ∷ (codes "d", 4) ∷ []
unfolding lru_set Cache.Text-discrete
lru_set_full = refl

lru_get_moves :
    lru_get Cache.Text-discrete (codes "b") entry ≡ ((codes "c", 3) ∷ (codes "b", 2) ∷ [], some 2)
unfolding lru_get Cache.Text-discrete
lru_get_moves = refl

abbrev calls : List (Recent.Call Text ℕ)
calls =
    Recent.set (codes "a") 1
    ∷ Recent.set (codes "b") 2
    ∷ Recent.get (codes "a")
    ∷ Recent.set (codes "c") 3
    ∷ []

run_keeps_used : Recent.run Cache.Text-discrete 2 [] calls ≡ (codes "a", 1) ∷ (codes "c", 3) ∷ []
unfolding Recent.run lru_set lru_get Cache.Text-discrete
run_keeps_used = refl

run_recent_example :
    (old : List (Text × ℕ)) × (old ++ Recent.run Cache.Text-discrete 2 [] calls
      ≡ Recent.history Cache.Text-discrete 2 [] calls)
    × Distinct Cache.Text-discrete (Recent.run Cache.Text-discrete 2 [] calls)
    × (length (Recent.run Cache.Text-discrete 2 [] calls) ≡ (
        if ltb 2 (length (Recent.history Cache.Text-discrete 2 [] calls))
        then 2
        else length (Recent.history Cache.Text-discrete 2 [] calls)))
run_recent_example = Recent.run_recent Cache.Text-discrete 2 calls

abbrev app : App
app = record {
  candidate_labels = codes "code" ∷ codes "chat" ∷ [];
  taxonomy_version = codes "1";
  llm_model = codes "m";
}

abbrev empty_cache : Cache.ClassificationCache ℕ
empty_cache = record {
  fingerprint_hash = digest (codes "m:x");
  ttl = 60;
  lru = [];
  lru_max = 2;
  connected = true;
}

new_cache_bound :
    (Cache.new_cache outside
      (codes "m")
      (codes "code" ∷ codes "chat" ∷ [])
      (codes "x")
      60
      0).lru_max
    ≡ 1
unfolding Cache.new_cache
new_cache_bound = refl

abbrev answer : ClassifyResponse ℕ
answer = record {
  intent_label = codes "code";
  confidence = 90;
  source = model;
  taxonomy_version = codes "1";
  model_id = codes "m";
}

get-set_example :
    ((Cache.get outside
        (Cache.set outside empty_cache [] (codes "hi") answer none).0
        []
        (codes "hi")
        none).1
      ≡ some (record answer { source = cache }))
    × ((Cache.get outside empty_cache
          (Cache.set outside empty_cache [] (codes "hi") answer none).1
          (codes "hi")
          none).1
        ≡ some (record answer { source = cache }))
unfolding find text_eq Cache.cache_key strip
get-set_example =
    Cache.Laws.get-set outside empty_cache empty_cache [] (codes "hi") answer none (omega arith) tt
      refl refl refl refl 90 (1 ∷ 4 ∷ codes "code" ++ (1 ∷ codes "1" ++ (1 ∷ codes "m"))) refl refl
      refl []

-- The first attempt fails in passing, the second is answered.
abbrev second_answers : ℕ → Post
second_answers zero = transient
second_answers (suc n) =
    answered (some (obj (field "message" (obj (field "content" (str "{...}") end)) end)))

abbrev coding : LlmResult ℕ
coding = record {
  intent = codes "code";
  confidence = 100;
  reasoning = codes "n/a";
  multi_intent = [];
}

classify-coding : (Llm.classify outside app.candidate_labels second_answers).1 ≡ ok coding
unfolding Llm.classify text_eq strip
classify-coding = refl

abbrev body : ClassifyRequest
body = record { text = codes "  Write  Code "; tenant_id = none }

abbrev start : State outside
start = record { cache = empty_cache; store = [] }

normalized : Handler.normalize_text body.text ≡ codes "write code"
unfolding Handler.normalize_text strip
normalized = refl

url_degenerate : Handler.is_degenerate (codes "https://a.b/c") ≡ true
unfolding Handler.is_degenerate
url_degenerate = refl

url_with_text : Handler.is_degenerate (codes "https://a.b/c what") ≡ false
unfolding Handler.is_degenerate
url_with_text = refl

classify_stored :
    (Handler.classify outside app body second_answers start).1
    ≡ ok (record answer { confidence = 100 })
unfolding Handler.classify strip Cache.get lru_get Llm.classify text_eq
classify_stored = refl

classify-IsServed_example :
    Handler.Laws.IsServed outside ordered store app body second_answers
      (Handler.classify outside app body second_answers start)
classify-IsServed_example =
    Handler.Laws.classify-IsServed outside ordered store app body second_answers start (tt, λ k. tt)

abbrev unreachable : ℕ → Post
unreachable n = transient

not_degenerate : Handler.is_degenerate (strip body.text) ≡ false
unfolding Handler.is_degenerate strip
not_degenerate = refl

outage_kept_example :
    ((Handler.classify outside app body unreachable start).1
      ≡ ok (Handler.Outage.outage_response outside app body))
    × ((Handler.classify outside app body second_answers
          (Handler.classify outside app body unreachable start).0).1
        ≡ ok (record (Handler.Outage.outage_response outside app body) { source = cache }))
unfolding find
outage_kept_example =
    Handler.Outage.outage_kept outside app body ordered unreachable second_answers start
      not_degenerate refl refl (omega arith) tt refl refl
