-- ===== src/Lib.antt =====
-- The verification library of tsgonest's Go code.
--
-- tsgonest compiles a NestJS project: it analyses the controllers, writes an OpenAPI document for
-- them, generates a TypeScript client from the document, and rebuilds when a file changes. This
-- library models the parts of it that compute on data of their own:
--
-- - Metadata.antt: internal/metadata/metadata.go, the normalised description of a TypeScript type. The
--   struct Metadata holds itself through slices, so it is a mutual block (Metadata, Properties,
--   Pointer, Elements, Members, Index) whose plain fields are the record Facts. A float64 is its bit
--   pattern, since it is only copied.
-- - Analyzer.antt: the structs of internal/analyzer/routes.go that the OpenAPI generator reads.
-- - Openapi/Schema.antt and its child Constrain: the struct Schema of internal/openapi/schema.go
--   (Keywords are its plain fields) and what is written into it: wrapNullable, convertAtomic,
--   convertLiteral, applyConstraints.
-- - Openapi/SchemaGen: the methods of SchemaGenerator. Its only state, the map of named schemas, is
--   passed on by the monad of Action; `register` is the code's placeholder, build and overwrite.
--   Objects, Unions and Convert have one function for each convert… and build… method, on the actions
--   for the children (Parts); Children is the recursion over Metadata that supplies them, so
--   metadata_to_schema is MetadataToSchema. Known, Resolved, Names, Ends, Shapes, Methods and Total are
--   about how it ends.
-- - Openapi/Document.antt: the structs of internal/openapi/generator.go.
-- - Openapi/Paths.antt: convertPath and ensurePathParams.
-- - Openapi/Operation: buildOperation, in the order of its code: Parameters, Sse, Responses, Status,
--   Build.
-- - Openapi/Generate.antt: GenerateWithOptions. Its children follow what it adds to the document:
--   Valid says when that is well formed, Routes what is asked of the routes, Complete is the whole.
-- - Openapi/Compliance.antt: ValidateDocument of internal/openapi/compliance.go, where the place and
--   the message of an error are data, not text; Compliant is about what it finds in a generated
--   document.
-- - Openapi/Configure.antt: ApplyConfig; Configured and ConfiguredTags are about its results.
-- - Sdkgen: the parts of internal/sdkgen that name and type. Keys has the property keys and accesses of
--   schema2ts.go, Literals reads them as JavaScript does; Nodes has SchemaNode and the renaming of
--   shared.go, Refs, Fresh, Moves and Renaming are about the references afterwards. Types has
--   SchemaToTS, with constToTS and enumToTSUnion of parse.go; Grammar is the part of TypeScript's
--   grammar that its texts use, TypeOf the type that a schema stands for, Readable relates the two.
--   Interfaces has GenerateInterface and the comments, Comments is about where those end.
-- - Codegen: the type guard of internal/codegen. JsValue has the values of JavaScript and what is used of
--   its engine, Expr the expressions that the format strings of validate_is.go write, with their run
--   on a value (an exception is none), IsExpr the generator, one function for each of its functions,
--   Names and Formats what it takes from validate_util.go and formats.go, Calls the expressions that call
--   no function. Matches says what it is to
--   have a type, Normal what the analyzer is relied on for; Correct runs the generated expressions.
-- - Pathalias: internal/pathalias/pathalias.go: matchAndResolve, with toRelative as a parameter; Output has
--   toRelative, on the functions of path/filepath as parameters, Lines has ResolveImports, RootDir has
--   InferRootDir, whose fuel is the length of the first directory. Patterns says what it is
--   for an alias to fit, Choice is about the alias that is chosen, Order about the order of the map,
--   Again and Edited about the imports afterwards.
-- - Watcher.antt: internal/watcher/watcher.go. The file system is a parameter, the list of what
--   filepath.Walk visits. Delivery has the steps of Watch, of the timer and of the timer's functions as
--   a relation, in which they may come in any order.
-- - Diagnostic.antt: internal/diagnostic/diagnostic.go, Collector and the text of a diagnostic.
-- - Buildcache.antt: internal/buildcache/cache.go on a disk, a map from paths to contents; Faults says
--   which calls of the file system fail. How other bytes parse as JSON is a parameter.
-- - Common: what the models share of Go: maps as association lists with string keys, package strings
--   on lists of code points, %d of a natural number.
--
-- The parts meet as in the program: the generator takes ControllerInfo and TypeRegistry, it runs the
-- schema generator on each type of a route and keeps the map of schemas between routes, its document
-- goes through ApplyConfig and ValidateDocument.
--
-- Bounds and fuel. A reference leads from a type to a registered one and may lead back, so the
-- recursion of MetadataToSchema is bounded by fuel: one unit for each component name that is not in
-- the map yet. A name is put into the map before its type is converted, so each step into a
-- reference lowers the number of missing names: that number is the fuel the theorems ask for, and
-- for the empty map it is at most the number of names that the registry and the routes mention. The
-- type guard puts a referenced type in place and marks it as under way, so its fuel is the number of
-- registered types. InferRootDir goes up to a shorter directory at each step. All other recursion is structural. Numbers that the code counts with are natural
-- numbers below any machine bound; status codes and sizes are copied or printed only.
--
-- A map iteration of Go has no fixed order; the models go through an association list.
--
-- Not modelled: what walks the trees of the TypeScript compiler (internal/analyzer but for the structs,
-- internal/compiler), whose shim packages are submodules that are not in the tree; the emitters of
-- JavaScript and TypeScript text (the text of the type guard's expressions, in which %q and jsLiteral
-- write the literals, the rest of internal/codegen, internal/rewrite, of internal/sdkgen);
-- files, processes and flags (cmd/tsgonest, internal/runner, internal/config,
-- the calls of these in internal/pathalias); JSON encoding; internal/collections, a copy of typescript-go's package.
pub mod Common
pub mod Metadata
pub mod Analyzer
pub mod Openapi
pub mod Buildcache
pub mod Codegen
pub mod Diagnostic
pub mod Pathalias
pub mod Sdkgen
pub mod Watcher
