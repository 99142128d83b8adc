-- ===== src/Lib.antt =====
-- RedisGraph: the matrices of the graph, the values and filters of its queries, and its storage.
--
-- Graph.antt models the graph of src/graph/graph.c: its policies of synchronization, and
-- Graph_FormConnection, Graph_CreateEdge and Graph_DeleteEdges. Graph/Schema models Graph_New and
-- the functions that add and remove labels and relations, and Graph/Label Graph_CreateNode,
-- Graph_LabelNode, Graph_RemoveNodeLabels and Graph_IsNodeLabeled; Graph/Read models
-- Graph_GetEdgesConnectingNodes, and Graph/Entities shows what the stores hold of a new entity. Its invariants (Graph/Linked, Graph/Labeled) say that the adjacency
-- matrix agrees with the relations, and the label matrices with the matrix of node labels.
--
-- The graph keeps one matrix for each label and relation. A matrix of src/graph/rg_matrix is a
-- GraphBLAS matrix with two matrices of pending changes: `delta_plus` of additions, `delta_minus` of
-- deletions. DeltaMatrix.antt models it and the functions RG_Matrix_extractElement_BOOL,
-- RG_Matrix_setElement_BOOL, RG_Matrix_removeElement_BOOL, RG_Matrix_wait, RG_Matrix_export,
-- RG_Matrix_resize, RG_Matrix_copy, RG_Matrix_clear, RG_Matrix_nvals and RG_eWiseAdd;
-- DeltaMatrix/Both adds the transpose that the adjacency matrix has. Its invariant
-- (DeltaMatrix/Valid) is what RG_Matrix_validateState asserts of every position in a debug build.
-- DeltaMatrix/Edges models the matrices of edges: an entry is one edge id or an array of the ids of
-- parallel edges, and a boolean transpose is kept beside the matrix. Its invariant (Edges/Live) adds
-- that the transpose has an entry exactly where the matrix has one, and that no array that was freed
-- is shown. RG_Matrix_setElement_UINT64, RG_Matrix_removeElement_UINT64 and
-- RG_Matrix_removeEntry_UINT64 are `set_element_uint64`, `remove_element_uint64` and
-- `remove_entry_uint64`. Arrays.antt models array_del_fast of src/util/arr.h, which they use.
--
-- GraphBLAS is a library of deps/: GraphBlas.antt names the calls that the matrices make of it and
-- the documented behaviour of each, and GraphBlas/Dense shows with a concrete instance that these
-- laws can hold together.
--
-- Value.antt models the values of src/value.h and SIValue_Compare of src/value.c, whose machine
-- subtractions wrap. BooleanFuncs.antt models the functions of
-- src/arithmetic/boolean_funcs/boolean_funcs.c. FilterTree.antt models the trees of filters of
-- src/filter_tree/filter_tree.c and FilterTree_applyFilters; FilterTree/DeMorgan, FilterTree/Compact
-- and FilterTree/Combine model the rewritings of a tree. Expressions, and the payloads of values
-- that other parts compare, are parameters; Value/Sample and FilterTree/Tests give concrete ones.
--
-- AlgebraicExpression.antt models the expressions over matrices that the pattern of a query is
-- translated to: their optimization by three passes, algebraic_expression_optimization.c of
-- src/arithmetic/algebraic_expression. What an expression denotes (AlgebraicExpression/Matrices) is
-- told over matrices that are a parameter, with the laws of a semiring with a transpose. The
-- evaluation is not modelled: its product, RG_mxm, asks for a first matrix without pending changes
-- and masks the result, so that it is no product of a semiring while deletions are pending.
--
-- UnsignedRange.antt models src/util/range/unsigned_range.c. DataBlock.antt models the store of
-- nodes and edges, src/util/datablock/datablock.c: slots that are allocated, deleted and used again;
-- DataBlock/Scan models the iterator of src/util/datablock/datablock_iterator.c. AttributeSet.antt
-- models the attributes of a node or an edge, src/graph/entities/attribute_set.c. Cache.antt models
-- the cache of parsed queries, src/util/cache, over a rax that is a parameter. CircularBuffer.antt
-- models src/util/circular_buffer.c, and QueriesLog.antt the log of src/queries_log/queries_log.c
-- that is built of two such buffers, with a round of src/cron/tasks/stream_finished_queries.c, which
-- streams a log where the key of its stream is of a stream, and only resets it otherwise.
-- ObjectPool.antt models the pool of src/util/object_pool/object_pool.c, and ObjectPool/Calls the
-- orders in which a program may call it.
--
-- Every function of the program is structural recursion or recursion on fuel. The caller of an
-- iterator (DataBlock/Scan) has fuel for one item per slot, and the loop that streams a log for one
-- round per item and one that ends it. The two loops of the optimization have as much fuel as an
-- expression is deep, and as it has weight (AlgebraicExpression/Weight), which every round lessens.
-- A machine integer is a natural number with its wrap-around written out where a result depends on
-- it; the 64-bit counters of the cache and of the buffers do not reach their bounds. Not modelled:
-- locks and races, the memory allocator, iteration over matrices and what the graph reads by it,
-- reserved nodes, matrix products, the population and evaluation of expressions, execution plans, and
-- what talks to the host process.
pub mod Prelude
pub mod GraphBlas
pub mod Arrays
pub mod Value
pub mod BooleanFuncs
pub mod FilterTree
pub mod DeltaMatrix
pub mod UnsignedRange
pub mod DataBlock
pub mod AttributeSet
pub mod Graph
pub mod ObjectPool
pub mod AlgebraicExpression
pub mod CircularBuffer
pub mod Cache
pub mod QueriesLog
