-- ===== src/Protocol/Manager.antt =====
-- src/protocol/protocol_manager.cpp: the list of adapters. The program has one kind of adapter.
pub mod Idle
use network_proxy.Prelude.{
  if◌then◌else◌, Bytes, Bool, true, false, not, Option, none, some, List, [], ◌∷◌, ◌++◌,
}
use network_proxy.Config.Types.{AppConfig}
use network_proxy.Patch.Engine.{PatchEngine}
use network_proxy.Protocol.Message.{ProtocolContext}
use network_proxy.Protocol.Adapter.{can_handle, apply_patch}

-- The class `ProtocolAdapter`, with its one subclass.
pub data ProtocolAdapter : Type 0 where
  http_protocol_adapter : ProtocolAdapter

pub record ProtocolManager : Type 0 where
  pub config : AppConfig
  pub patch_engine : PatchEngine
  pub adapters : List ProtocolAdapter

unfoldable pub new_manager : AppConfig → PatchEngine → ProtocolManager
new_manager config e = record { config = config; patch_engine = e; adapters = [] }

unfoldable pub register_default_adapters : ProtocolManager → ProtocolManager
register_default_adapters m =
    if not m.config.protocol_adapter_enabled
    then m
    else if m.config.http_adapter_enabled
    then record m { adapters = m.adapters ++ http_protocol_adapter ∷ [] }
    else m

unfoldable pub adapter_patch :
    ProtocolAdapter → PatchEngine → ProtocolContext → Bytes → Option Bytes
adapter_patch http_protocol_adapter e context payload =
    if not (can_handle context payload) then none else apply_patch e context payload

unfoldable pub try_adapters :
    PatchEngine → List ProtocolAdapter → ProtocolContext → Bytes → Bytes × Bool
unfolding adapter_patch
try_adapters e [] context payload = (payload, false)
try_adapters e (adapter ∷ adapters) context payload =
    let rest = try_adapters e adapters context payload in
    elim (adapter_patch adapter e context payload) [
      | none ↦ rest
      | some payload' ↦ (payload', true)
    ]

unfoldable pub patch_payload : ProtocolManager → Bytes → ProtocolContext → Bytes × Bool
unfolding try_adapters
patch_payload m payload context =
    if not m.config.protocol_adapter_enabled
    then (payload, false)
    else try_adapters m.patch_engine m.adapters context payload
