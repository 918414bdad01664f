-- ===== src/Catalog.antt =====
-- router/model_ids.py and `default_model_catalog` of router/config.py. Prices are in hundred-thousandths
-- of a dollar for 1000 tokens, so that each list price is a whole number.
use nexus_llm_router.Prelude.{ℕ, String, true, false, none, some, [], ◌∷◌}
use nexus_llm_router.Prelude.Ratio.{ratio}
use nexus_llm_router.Prelude.Dict.{Dict}
use nexus_llm_router.Schemas.{ModelCandidate, code, medical, legal, general}

abbrev pub openai_frontier_model : String
openai_frontier_model = "gpt-6-astra"

abbrev pub openai_balanced_model : String
openai_balanced_model = "gpt-6-luna"

abbrev pub anthropic_safety_model : String
anthropic_safety_model = "claude-opus-5-5"

abbrev pub anthropic_fast_model : String
anthropic_fast_model = "claude-haiku-5-5"

abbrev pub gemini_pro_model : String
gemini_pro_model = "gemini-4-argon"

abbrev pub gemini_flash_model : String
gemini_flash_model = "gemini-3.8-flash"

abbrev pub moonshot_balanced_model : String
moonshot_balanced_model = "kimi-k3.1-pro"

abbrev gpt6_max_input_tokens : ℕ
gpt6_max_input_tokens = 922000

abbrev gpt6_long_prompt_threshold_tokens : ℕ
gpt6_long_prompt_threshold_tokens = 272000

abbrev haiku_long_prompt_threshold_tokens : ℕ
haiku_long_prompt_threshold_tokens = 100000

unfoldable pub gpt6_astra : ModelCandidate
gpt6_astra = record {
  model = openai_frontier_model;
  provider = "openai";
  quality_score = ratio 97 100;
  input_cost_per_1k = 1000;
  output_cost_per_1k = 5000;
  supports_domains = code ∷ legal ∷ general ∷ [];
  supports_realtime = true;
  context_window = 1050000;
  max_input_tokens = some gpt6_max_input_tokens;
  long_prompt_pricing = some (record {
    threshold_tokens = gpt6_long_prompt_threshold_tokens;
    input_cost_per_1k = 2000;
    output_cost_per_1k = 7500;
  });
  supported_regions = "us" ∷ "global" ∷ [];
}

unfoldable pub gpt6_luna : ModelCandidate
gpt6_luna = record {
  model = openai_balanced_model;
  provider = "openai";
  quality_score = ratio 84 100;
  input_cost_per_1k = 10;
  output_cost_per_1k = 50;
  supports_domains = code ∷ general ∷ [];
  supports_realtime = true;
  context_window = 1050000;
  max_input_tokens = some gpt6_max_input_tokens;
  long_prompt_pricing = some (record {
    threshold_tokens = gpt6_long_prompt_threshold_tokens;
    input_cost_per_1k = 20;
    output_cost_per_1k = 75;
  });
  supported_regions = "us" ∷ "global" ∷ [];
}

unfoldable pub claude_opus : ModelCandidate
claude_opus = record {
  model = anthropic_safety_model;
  provider = "anthropic";
  quality_score = ratio 98 100;
  input_cost_per_1k = 400;
  output_cost_per_1k = 2000;
  supports_domains = code ∷ medical ∷ legal ∷ general ∷ [];
  supports_realtime = true;
  context_window = 1000000;
  max_input_tokens = none;
  long_prompt_pricing = none;
  supported_regions = "us" ∷ "eu" ∷ "global" ∷ [];
}

unfoldable pub claude_haiku : ModelCandidate
claude_haiku = record {
  model = anthropic_fast_model;
  provider = "anthropic";
  quality_score = ratio 82 100;
  input_cost_per_1k = 10;
  output_cost_per_1k = 50;
  supports_domains = general ∷ legal ∷ [];
  supports_realtime = true;
  context_window = 1000000;
  max_input_tokens = none;
  long_prompt_pricing = some (record {
    threshold_tokens = haiku_long_prompt_threshold_tokens;
    input_cost_per_1k = 50;
    output_cost_per_1k = 250;
  });
  supported_regions = "us" ∷ "eu" ∷ "global" ∷ [];
}

unfoldable pub gemini_argon : ModelCandidate
gemini_argon = record {
  model = gemini_pro_model;
  provider = "google";
  quality_score = ratio 95 100;
  input_cost_per_1k = 200;
  output_cost_per_1k = 1000;
  supports_domains = code ∷ medical ∷ legal ∷ general ∷ [];
  supports_realtime = false;
  context_window = 1048576;
  max_input_tokens = none;
  long_prompt_pricing = none;
  supported_regions = "us" ∷ "eu" ∷ "global" ∷ [];
}

unfoldable pub gemini_flash : ModelCandidate
gemini_flash = record {
  model = gemini_flash_model;
  provider = "google";
  quality_score = ratio 81 100;
  input_cost_per_1k = 75;
  output_cost_per_1k = 375;
  supports_domains = code ∷ general ∷ [];
  supports_realtime = true;
  context_window = 1048576;
  max_input_tokens = none;
  long_prompt_pricing = none;
  supported_regions = "us" ∷ "eu" ∷ "global" ∷ [];
}

unfoldable pub kimi_pro : ModelCandidate
kimi_pro = record {
  model = moonshot_balanced_model;
  provider = "moonshot";
  quality_score = ratio 76 100;
  input_cost_per_1k = 200;
  output_cost_per_1k = 1000;
  supports_domains = code ∷ general ∷ [];
  supports_realtime = true;
  context_window = 1048576;
  max_input_tokens = none;
  long_prompt_pricing = none;
  supported_regions = "cn" ∷ "global" ∷ [];
}

-- `default_model_catalog()`, in the order of the dict
unfoldable pub default_model_catalog : Dict ModelCandidate
unfolding gpt6_astra gpt6_luna claude_opus claude_haiku gemini_argon gemini_flash kimi_pro
default_model_catalog =
    (openai_frontier_model, gpt6_astra)
    ∷ (openai_balanced_model, gpt6_luna)
    ∷ (anthropic_safety_model, claude_opus)
    ∷ (anthropic_fast_model, claude_haiku)
    ∷ (gemini_pro_model, gemini_argon)
    ∷ (gemini_flash_model, gemini_flash)
    ∷ (moonshot_balanced_model, kimi_pro)
    ∷ []
