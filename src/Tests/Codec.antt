-- ===== src/Tests/Codec.antt =====
-- A concrete `bincode` for nodes and edges: the fields one after the other.
use lightgraph.Base.{◌≡◌, refl, subst, Option, none, some, [], ◌∷◌, Bytes}
use lightgraph.Extern.{Bincode}
use lightgraph.Storage.Node.{Node}
use lightgraph.Storage.Edge.{Edge}
use lightgraph.Storage.PropStore.Column.{Value}

some_injective : {a b : Bytes} → some a ≡ some b → a ≡ b
some_injective e = cc

abbrev pub write_node : Node → Option Bytes
write_node n =
    some (n.id ∷ n.first_out ∷ n.first_in ∷ n.props_row ∷ n.created_tx ∷ n.deleted_tx ∷ n.labels)

abbrev pub read_node : Bytes → Option Node
read_node (id ∷ out ∷ into ∷ row ∷ created ∷ deleted ∷ labels) = some (record {
  id = id;
  labels = labels;
  first_out = out;
  first_in = into;
  props_row = row;
  created_tx = created;
  deleted_tx = deleted;
})
read_node _ = none

pub read_node-write_node : (n : Node) (bs : Bytes) → write_node n ≡ some bs → read_node bs ≡ some n
read_node-write_node n bs e = subst (λ b. read_node b ≡ some n) (some_injective e) refl

instance abbrev pub node_codec : Bincode Node
node_codec = record {
  serialize = write_node;
  deserialize = read_node;
  deserialize-serialize = read_node-write_node;
}

abbrev pub write_edge : Edge → Option Bytes
write_edge e = some (
    e.id ∷ e.src ∷ e.dst ∷ e.etype ∷ e.next_out ∷ e.next_in ∷ e.props_row ∷ e.created_tx
    ∷ e.deleted_tx ∷ [])

abbrev pub read_edge : Bytes → Option Edge
read_edge (id ∷ src ∷ dst ∷ etype ∷ out ∷ into ∷ row ∷ created ∷ deleted ∷ []) = some (record {
  id = id;
  src = src;
  dst = dst;
  etype = etype;
  next_out = out;
  next_in = into;
  props_row = row;
  created_tx = created;
  deleted_tx = deleted;
})
read_edge _ = none

pub read_edge-write_edge : (e : Edge) (bs : Bytes) → write_edge e ≡ some bs → read_edge bs ≡ some e
read_edge-write_edge e bs p = subst (λ b. read_edge b ≡ some e) (some_injective p) refl

instance abbrev pub edge_codec : Bincode Edge
edge_codec = record {
  serialize = write_edge;
  deserialize = read_edge;
  deserialize-serialize = read_edge-write_edge;
}

-- No value, and an integer; nothing else can be written.
abbrev pub write_value : Option Value → Option Bytes
write_value none = some []
write_value (some (Value.int n)) = some (n ∷ [])
write_value (some _) = none

abbrev pub read_value : Bytes → Option (Option Value)
read_value [] = some none
read_value (n ∷ []) = some (some (Value.int n))
read_value _ = none

pub read_value-write_value :
    (v : Option Value) (bs : Bytes) → write_value v ≡ some bs → read_value bs ≡ some v
read_value-write_value none bs e = subst (λ b. read_value b ≡ some none) (some_injective e) refl
read_value-write_value (some (Value.int n)) bs e =
    subst (λ b. read_value b ≡ some (some (Value.int n))) (some_injective e) refl
read_value-write_value (some Value.null) bs e = cc e
read_value-write_value (some (Value.bool b)) bs e = cc e
read_value-write_value (some (Value.float b)) bs e = cc e
read_value-write_value (some (Value.string b)) bs e = cc e
read_value-write_value (some (Value.list b)) bs e = cc e
read_value-write_value (some (Value.vector b)) bs e = cc e

instance abbrev pub value_codec : Bincode (Option Value)
value_codec = record {
  serialize = write_value;
  deserialize = read_value;
  deserialize-serialize = read_value-write_value;
}
