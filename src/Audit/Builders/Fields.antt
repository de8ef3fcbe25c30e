-- ===== src/Audit/Builders/Fields.antt =====
-- `if let Some(x) = field { object.insert(key, value) }` of the builders.
use mipsorcu.Json.{Value, Map, insert}
use mipsorcu.Prelude.{Text, Option, none, some}

unfoldable pub insert_some : {A : Type 0} → Text → (A → Value) → Option A → Map → Map
unfolding insert
insert_some key value none m = m
insert_some key value (some x) m = insert key (value x) m
