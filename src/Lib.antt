-- ===== src/Lib.antt =====
-- Verification of HeteroAccel, a hardware-aware inference runtime for local models.
--
-- The program decides where a model is to run, brings the model's byte ranges into RAM and onto an
-- accelerator, and runs a graph of transfers and computations. The parts that are modelled, in the
-- order in which a model goes through them:
--
--   Planner     src/planner/ExecutionPlanner.cpp. From the model's requirements, a report on devices
--               and engines, and the registered engines, `ExecutionPlanner::plan` makes a plan.
--               Planner/Types has the data, Planner the tests and `selectEngine`, Planner/Plan the
--               choice of a placement (the lambdas of `plan`), and Planner/Plan/Notes and
--               Planner/Plan/Assembly how the plan is filled in. A device pointer is its slot, a text
--               is a constructor.
--   Extractor   src/model/GGUFRegionExtractor.cpp. The regions of a model file.
--   Residency   src/model/ModelResidencyManager.cpp. A map of records, one for each region, with
--               byte counts against a RAM budget. Residency has the private helpers (eviction, room in
--               RAM, loading), Residency/Methods the upload and the public methods. Residency/Types has
--               the data and the interface IAcceleratorMemory, which Residency/Device fills with
--               src/model/HostAcceleratorMemory.cpp.
--   Adapter     src/model/PlanResidencyAdapter.cpp. A plan carried out on a residency manager.
--   Graph       src/execution/ExecutionGraph.cpp. Graph/Builder is ExecutionGraphBuilder.cpp and
--               Graph/Scheduler is ExecutionGraphScheduler.cpp, both in src/execution. Graph/Cycles says
--               what a cycle is.
--   Gguf        src/hydroxl/GGUFLoader.cpp, the parser of model files. Gguf/Types has the types of
--               the format, Gguf/Stream the reading of bytes and strings, Gguf/Values the metadata
--               (`readArray`, `readValue`, `parseKV`), Gguf/Tensors `parseTensors`, and Gguf the header,
--               `open`, the accessors and `readTensorData`. Gguf/Write is a writer of the format, to
--               state what is read back.
--   KvCache     src/hydroxl/HydroXLKVCache.cpp. KvCache/Spec is the table that it implements.
--   Workloads   src/scheduler/WorkloadRegistry.cpp, the registry of concurrent workloads.
--               Workloads/Calls has the calls that change it.
--
-- Capability and ModelTypes are src/engine/EngineCapability.h and src/model/ModelTypes.h. Base has the
-- names that all modules share, lists, 64-bit arithmetic and maps.
--
-- The file that the parser reads is the list of its bytes, and its stream is a position in it; a part
-- of the parser returns an error or a value with the position after it. Floats are bit patterns.
--
-- Stateful classes are records that the methods take and return. What the code reads from outside
-- is an argument: the clock, the cancel flag at each of its reads, the result of an allocation, a
-- read or an upload, what llama.cpp reports, and in the scheduler which tasks finish in a round. The
-- methods of the residency manager hold its mutex, so each is one step. Maps are lists in the order
-- of iteration. 64-bit and 32-bit counts wrap, and the pin counts are kept as their 32 bits.
--
-- Fuel: making room in RAM evicts a record in each round, so its loop has one unit for each record;
-- making room on the accelerator likewise takes a record off the device in each round. Reading
-- a metadata array has one unit more than the bytes of the file, and each level of nesting takes bytes
-- of it. Blocking the dependents of a failed node has one unit for each edge out of the failed node and
-- out of every node, since a node is blocked at most once. The search for cycles goes down
-- once for each node.
--
-- Not modelled: durations, texts, drivers, files and floating-point kernels, and the parts of the
-- program that are not named above.
mod Base
pub mod ModelTypes
pub mod Capability
pub mod Residency
pub mod Planner
pub mod Extractor
pub mod Adapter
pub mod Graph
pub mod Gguf
pub mod KvCache
pub mod Workloads
