-- ===== src/Demo/Cards.antt =====
-- The cards of the two agents of demo/python/a2a_demo.py.
use mq.Base.{Text, codes, Bool, true, false, List, [], ◌∷◌, ◌++◌}

-- `AgentSkill(…)` and `AgentCard(…)`, with the arguments that the demo gives; `streaming` is that
-- of `AgentCapabilities`.
pub record Skill : Type 0 where
  pub id : Text
  pub name : Text
  pub description : Text

pub record Card : Type 0 where
  pub name : Text
  pub description : Text
  pub version : Text
  pub skills : List Skill
  pub streaming : Bool

abbrev pub agent_a_card : Card
agent_a_card = record {
  name = codes "demo.agent.translator";
  description =
      codes "Multilingual translation agent. "
      ++ codes "Send text + target_lang (en/zh/ja), get back translated text.";
  version = codes "1.0.0";
  skills =
      record {
        id = codes "translate";
        name = codes "Translate text";
        description = codes "Translates text between EN, ZH, JA, KO.";
      }
      ∷ [];
  streaming = true;
}

abbrev pub agent_b_card : Card
agent_b_card = record {
  name = codes "demo.agent.sender";
  description = codes "Demo sender agent that dispatches translation tasks.";
  version = codes "1.0.0";
  skills = [];
  streaming = false;
}
