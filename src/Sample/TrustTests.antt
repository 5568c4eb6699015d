-- ===== src/Sample/TrustTests.antt =====
-- The theorems on trust configurations and parameter fetchers at concrete inputs.
use nac_abe.Common.{text, ◌≡◌, [], ◌∷◌, length}
use nac_abe.Ndn.{name_eq}
use nac_abe.Packets.{Data, interest}
use nac_abe.Algo.Keys.{no_params}
use nac_abe.TrustConfig.{empty_trust, load, parsed}
use nac_abe.TrustConfig.Laws.{IsFiled, load-IsFiled, cleared-IsFiled}
use nac_abe.ParamFetcher.{ParamFetcher, nack_answer, timeout_answer}
use nac_abe.ParamFetcher.Laws.{sent, length-sent}
use nac_abe.Sample.Names.{NameParts, toy_ndn}
use nac_abe.Sample.Certificates.{toy_security}

load-IsFiled_example :
    IsFiled (load (text "trust.conf") (parsed (text "alice" ∷ [] ∷ text "bob" ∷ [])) empty_trust).1
load-IsFiled_example =
    load-IsFiled (text "trust.conf") (parsed (text "alice" ∷ [] ∷ text "bob" ∷ [])) empty_trust
      cleared-IsFiled

abbrev pub authority : NameParts
authority = (8, text "aa") ∷ []

abbrev pub fetcher : ParamFetcher
fetcher = record {
  m_attr_authority_prefix = authority;
  m_retry_count = 0;
  m_abe_type = [];
  m_pub_params_cache = no_params;
  m_interest_template = interest [];
}

abbrev late_fetcher : ParamFetcher
late_fetcher = record fetcher { m_retry_count = 8 }

-- Of four failures at the ninth attempt, two are followed by an Interest.
length-sent_example :
    length (sent (nack_answer ∷ timeout_answer ∷ nack_answer ∷ timeout_answer ∷ []) late_fetcher)
    ≡ 2
length-sent_example =
    length-sent (nack_answer ∷ timeout_answer ∷ nack_answer ∷ timeout_answer ∷ []) late_fetcher
      (tt, (tt, (tt, (tt, tt))))

abbrev odd_params : Data
odd_params = record {
  name = (8, text "aa") ∷ (8, text "PUBPARAMS") ∷ (8, text "XABE") ∷ (54, 3 ∷ []) ∷ [];
  content = text "p";
  freshness = 5000;
  content_type = 0;
}
