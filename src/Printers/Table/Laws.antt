-- ===== src/Printers/Table/Laws.antt =====
-- pkg/printers/humanreadable.go: what can be read back of a table.
use eliot.Prelude.{
  Bytes, codes, List, [], ◌∷◌, ◌++◌, ok, traverse, join, split, split-join, split-append, map, All,
  Lacks, Lacks-append, has, ◌≡◌, refl, ap, ◌∙◌, append_assoc, ◌>>=◌,
}
use eliot.Api.Types.{ApiPod, ApiInfo}
use eliot.Printers.Table.{
  row_text, rows_text, table_text, pod_header, node_header, pod_row, print_pods, node_row,
  print_nodes, IsRow, columns,
}

join-Lacks : (cs : List Bytes) → All (Lacks b'\n') cs → Lacks b'\n' (join b'\t' cs)
unfolding join has
join-Lacks [] h = refl
join-Lacks (c ∷ []) (h, _) = h
join-Lacks (c ∷ d ∷ cs) (h, hs) =
    Lacks-append b'\n' c (b'\t' ∷ join b'\t' (d ∷ cs)) h (join-Lacks (d ∷ cs) hs)

-- The lines of a text and the columns of each: what a reader sees.
abbrev pub cells : Bytes → List (List Bytes)
cells text = map (split b'\t') (split b'\n' text)

cells-rows_text :
    (rows : List (List Bytes)) → All IsRow rows → cells (rows_text rows) ≡ rows ++ ([] ∷ []) ∷ []
unfolding rows_text row_text split
cells-rows_text [] h = refl
cells-rows_text ([] ∷ rows) (h, hs) = elim h [ ]
cells-rows_text ((c ∷ cs) ∷ rows) (columns _ _ tabs lines, hs) =
    ap cells (append_assoc (join b'\t' (c ∷ cs)) (b'\n' ∷ []) (rows_text rows))
    ∙ ap (map (split b'\t'))
        (split-append b'\n' (join b'\t' (c ∷ cs)) (rows_text rows) (join-Lacks (c ∷ cs) lines))
    ∙ ap (λ r. r ∷ cells (rows_text rows)) (split-join b'\t' c cs tabs.0 tabs.1)
    ∙ ap (λ rs. (c ∷ cs) ∷ rs) (cells-rows_text rows hs)

-- A table with rows: an empty line, the header, the rows, and nothing behind the last newline.
table_cells :
    (nothing : Bytes) (header : List Bytes) (rows : List (List Bytes))
    → (rows ≡ [] → ⊥)
    → All IsRow (header ∷ rows)
    → cells (table_text nothing header rows) ≡ ([] ∷ []) ∷ (header ∷ rows) ++ ([] ∷ []) ∷ []
unfolding table_text split
table_cells nothing header [] n h = absurd (n refl)
table_cells nothing header (row ∷ rows) n h =
    ap (λ rs. ([] ∷ []) ∷ rs) (cells-rows_text (header ∷ row ∷ rows) h)

pod_header-IsRow : IsRow pod_header
unfolding has
pod_header-IsRow =
    columns (codes "NAMESPACE") (codes "NAME" ∷ codes "CONTAINERS" ∷ codes "STATUS" ∷ [])
      (refl, (refl, (refl, (refl, tt)))) (refl, (refl, (refl, (refl, tt))))

node_header-IsRow : IsRow node_header
unfolding has
node_header-IsRow =
    columns (codes "HOSTNAME") (codes "ENDPOINT" ∷ codes "VERSION" ∷ []) (refl, (refl, (refl, tt)))
      (refl, (refl, (refl, tt)))

-- Pods with metadata and a spec, none of whose columns holds a tab or a newline, are printed as a
-- table from which every cell is read back: for each pod, in order, its namespace, its name, the
-- number of its containers and its status.
print_pods-cells :
    (sort_strings : List Bytes → List Bytes) (pods : List ApiPod) (rows : List (List Bytes))
    → traverse (pod_row sort_strings) pods ≡ ok rows
    → (rows ≡ [] → ⊥)
    → All IsRow rows
    → (do text ← print_pods sort_strings pods; ok (cells text))
      ≡ ok (([] ∷ []) ∷ (pod_header ∷ rows) ++ ([] ∷ []) ∷ [])
unfolding print_pods
print_pods-cells sort_strings pods rows t n h =
    rw t (ap ok (table_cells (codes "No pods") pod_header rows n (pod_header-IsRow, h)))

-- The same of nodes, with the host name, the first address with the port, and the version.
print_nodes-cells :
    (node : ApiInfo) (nodes : List ApiInfo)
    → All IsRow (map node_row (node ∷ nodes))
    → cells (print_nodes (node ∷ nodes))
      ≡ ([] ∷ []) ∷ (node_header ∷ map node_row (node ∷ nodes)) ++ ([] ∷ []) ∷ []
unfolding print_nodes
print_nodes-cells node nodes h =
    table_cells (codes "No nodes") node_header (map node_row (node ∷ nodes)) (λ e. cc)
      (node_header-IsRow, h)
