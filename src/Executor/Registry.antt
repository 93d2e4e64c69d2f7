-- ===== src/Executor/Registry.antt =====
-- packages/executor/src/tools/registry.ts. A handler is a value of any type.
use secure_openclaw_poc.Common.{List, Option, String, map, none, some}
use secure_openclaw_poc.Common.JsMap
use secure_openclaw_poc.Common.JsMap.{JsMap}

pub data ToolSource : Type 0 where
  builtin mcp : ToolSource

pub record ToolRegistryEntry : Type 0 where
  pub name : String
  pub source : ToolSource
  pub server_name : Option String

pub record ToolRegistry (H : Type 0) : Type 0 where
  pub handlers : JsMap H
  pub entries : JsMap ToolRegistryEntry

module _ {H : Type 0} where
  unfoldable pub register_builtin : ToolRegistry H → String → H → ToolRegistry H
  register_builtin r name handler = record {
    handlers = JsMap.set name handler r.handlers;
    entries =
        JsMap.set name (record { name = name; source = builtin; server_name = none }) r.entries;
  }

  unfoldable pub register_mcp : ToolRegistry H → (name server_name : String) → ToolRegistry H
  register_mcp r name server_name = record r {
    entries =
        JsMap.set name (record { name = name; source = mcp; server_name = some server_name })
          r.entries;
  }

  unfoldable pub get : ToolRegistry H → String → Option H
  get r name = JsMap.get name r.handlers

  unfoldable pub list : ToolRegistry H → List ToolRegistryEntry
  list r = map (λ e. e.1) r.entries
