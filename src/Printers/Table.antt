-- ===== src/Printers/Table.antt =====
-- pkg/printers/humanreadable.go: the tables of pods and of nodes, as the bytes that are written. The
-- writer takes every byte.
pub mod Laws
use eliot.Prelude.{
  ℕ, Bytes, codes, Bool, List, [], ◌∷◌, ◌++◌, Option, none, some, Outcome, ok, crash, traverse,
  length, decimal, join, split, split-join, map, All, All-append, Lacks, has, ◌≡◌, refl, sym, ap,
  ◌∙◌, append_assoc, append-nil, ◌>>=◌,
}
use eliot.Api.Types.{ApiPod, ApiInfo}
use eliot.Utils.Lists.{get_first}
use eliot.Printers.{get_status}

-- A row of fmt.Fprintf: the columns with tabs between them, and a newline.
unfoldable pub row_text : List Bytes → Bytes
unfolding join
row_text columns = join b'\t' columns ++ b'\n' ∷ []

unfoldable pub rows_text : List (List Bytes) → Bytes
unfolding row_text
rows_text [] = []
rows_text (row ∷ rows) = row_text row ++ rows_text rows

abbrev pub pod_header : List Bytes
pod_header = codes "NAMESPACE" ∷ codes "NAME" ∷ codes "CONTAINERS" ∷ codes "STATUS" ∷ []

abbrev pub node_header : List Bytes
node_header = codes "HOSTNAME" ∷ codes "ENDPOINT" ∷ codes "VERSION" ∷ []

-- The table behind its empty line, or the text in place of a table without rows.
unfoldable pub table_text : Bytes → List Bytes → List (List Bytes) → Bytes
unfolding rows_text row_text
table_text nothing header [] = codes "\n\t(" ++ (nothing ++ codes ")\n\n")
table_text nothing header (row ∷ rows) = b'\n' ∷ rows_text (header ∷ row ∷ rows)

module _ (sort_strings : List Bytes → List Bytes) where
  -- crash: a nil dereference
  unfoldable pub pod_row : ApiPod → Outcome (List Bytes)
  unfolding get_status decimal
  pod_row pod = elim pod.metadata [
    | none ↦ crash
    | some m ↦ elim pod.spec [
      | none ↦ crash
      | some s ↦
          ok (
            m.namespace ∷ m.name ∷ decimal (length s.containers) ∷ get_status sort_strings pod ∷ [])
    ]
  ]

  -- PrintPods
  unfoldable pub print_pods : List ApiPod → Outcome Bytes
  unfolding pod_row traverse table_text
  print_pods pods = do
    rows ← traverse pod_row pods
    ok (table_text (codes "No pods") pod_header rows)

unfoldable pub node_row : ApiInfo → List Bytes
unfolding get_first decimal
node_row node =
    node.hostname
    ∷ (get_first node.addresses [] ++ b':' ∷ decimal node.grpc_port)
    ∷ node.version
    ∷ []

-- PrintNodes
unfoldable pub print_nodes : List ApiInfo → Bytes
unfolding node_row table_text
print_nodes nodes = table_text (codes "No nodes") node_header (map node_row nodes)

-- A row can be read back: it has a column, and none of its columns holds a tab or a newline.
pub data IsRow : List Bytes → Type 0 where
  columns :
      (c : Bytes) (cs : List Bytes)
      → All (Lacks b'\t') (c ∷ cs)
      → All (Lacks b'\n') (c ∷ cs)
      → IsRow (c ∷ cs)
