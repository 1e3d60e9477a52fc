-- ===== src/Server/Invariant/FixedChannels.antt =====
-- Which requests leave the channels of the server alone: all but those of the bridge to offer others.
use co_bridge.Base.{ℕ}
use co_bridge.Base.Assoc.{Assoc}
use co_bridge.Server.Types.{Channel}
use co_bridge.Server.Environment.{Environment}
use co_bridge.Server.Channels
use co_bridge.Server.Channels.Removal.{Offers}
use co_bridge.Server.Invariant.Writes.{Survives}
use co_bridge.Server.Invariant.Survival.{Survives-Stable}
use co_bridge.Server.Invariant.Steps.{Stable}

module _ {channels : Assoc ℕ Channel} {next : ℕ} where
  pub Survives-Offers : Survives ⊥ (Offers channels next)
  unfolding Channels.register_service
  Survives-Offers = record {
    untraced = λ s t p. record { all = p.all; counter = p.counter };
    register_channel = λ may. elim may [ ];
    register_service = λ d s p. record { all = p.all; counter = p.counter };
    erase_service = λ k s p. record { all = p.all; counter = p.counter };
    remove_channels = λ may. elim may [ ];
    params = λ m s p. record { all = p.all; counter = p.counter };
    options = λ o s p. record { all = p.all; counter = p.counter };
    graph = λ p t d s q. record { all = q.all; counter = q.counter };
    counted = λ s p. record { all = p.all; counter = p.counter };
    marked = λ hdl s first p. record { all = p.all; counter = p.counter };
    unmarked = λ hdl c s found is_marked p. record { all = p.all; counter = p.counter };
    kicked = λ hdl s p. record { all = p.all; counter = p.counter };
    entered = λ user_name user_id endpoint hdl s p out. record { all = p.all; counter = p.counter };
    left = λ hdl c s found p. record { all = p.all; counter = p.counter };
    subscribed = λ hdl channel sub s known p. record { all = p.all; counter = p.counter };
    unsubscribed = λ hdl channel s p. record { all = p.all; counter = p.counter };
    new_publications = λ hdl s p. record { all = p.all; counter = p.counter };
    advertised = λ hdl a s p. record { all = p.all; counter = p.counter };
    unadvertised = λ hdl id s p. record { all = p.all; counter = p.counter };
  }

  pub Stable-Offers : (env : Environment) → Stable ⊥ env (Offers channels next)
  Stable-Offers env = Survives-Stable env Survives-Offers
