-- ===== src/Journey/Config/Fits.antt =====
-- The configuration that a node of each type decodes into.
use openjourney.Common.{◌≡◌, Option, none, some, ok}
use openjourney.Journey.Graph.{Node, NodeType, node_type}
use openjourney.Journey.Config.{NodeConfig, decoded, decode_as, decode_config}

abbrev pub Made : {A : Type 0} → (A → NodeConfig) → NodeConfig → Type 0
Made {A} make c = (a : A) × (c ≡ make a)

abbrev pub Fits : NodeType → NodeConfig → Type 0
Fits NodeType.entry c = Made NodeConfig.entry c
Fits NodeType.delay c = Made NodeConfig.delay c
Fits NodeType.condition c = Made NodeConfig.condition c
Fits NodeType.split c = Made NodeConfig.split c
Fits NodeType.message c = Made NodeConfig.message c
Fits NodeType.wait_event c = Made NodeConfig.wait_event c
Fits NodeType.action c = Made NodeConfig.action c
Fits NodeType.goal c = Made NodeConfig.goal c
Fits NodeType.exit c = Made NodeConfig.exit c
Fits NodeType.ai_decision c = Made NodeConfig.ai_decision c
Fits NodeType.extension_action c = Made NodeConfig.extension c
Fits NodeType.extension_condition c = Made NodeConfig.extension c
Fits NodeType.feature_flag c = Made NodeConfig.feature_flag c
Fits NodeType.reserved c = ⊥
Fits NodeType.unknown c = ⊥

decoded-Made :
    {A : Type 0} (make : A → NodeConfig) (n : Node) (o : Option A) {c : NodeConfig}
    → decoded make n o ≡ ok c
    → Made make c
decoded-Made make n (some a) h = (a, cc)
decoded-Made make n none h = cc

decode_as-Fits : (t : NodeType) (n : Node) (c : NodeConfig) → decode_as t n ≡ ok c → Fits t c
unfolding decode_as
decode_as-Fits NodeType.entry n c h = decoded-Made NodeConfig.entry n _ h
decode_as-Fits NodeType.delay n c h = decoded-Made NodeConfig.delay n _ h
decode_as-Fits NodeType.condition n c h = decoded-Made NodeConfig.condition n _ h
decode_as-Fits NodeType.split n c h = decoded-Made NodeConfig.split n _ h
decode_as-Fits NodeType.message n c h = decoded-Made NodeConfig.message n _ h
decode_as-Fits NodeType.wait_event n c h = decoded-Made NodeConfig.wait_event n _ h
decode_as-Fits NodeType.action n c h = decoded-Made NodeConfig.action n _ h
decode_as-Fits NodeType.goal n c h = decoded-Made NodeConfig.goal n _ h
decode_as-Fits NodeType.exit n c h = decoded-Made NodeConfig.exit n _ h
decode_as-Fits NodeType.ai_decision n c h = decoded-Made NodeConfig.ai_decision n _ h
decode_as-Fits NodeType.extension_action n c h = decoded-Made NodeConfig.extension n _ h
decode_as-Fits NodeType.extension_condition n c h = decoded-Made NodeConfig.extension n _ h
decode_as-Fits NodeType.feature_flag n c h = decoded-Made NodeConfig.feature_flag n _ h
decode_as-Fits NodeType.reserved n c h = cc
decode_as-Fits NodeType.unknown n c h = cc

pub decode_config-Fits :
    (n : Node) (c : NodeConfig) → decode_config n ≡ ok c → Fits (node_type n.type) c
unfolding decode_config
decode_config-Fits n c h = decode_as-Fits (node_type n.type) n c h
