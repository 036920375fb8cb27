-- ===== src/Lib.antt =====
-- A verification library for the PyxCloud Terraform provider (Go).
--
-- The provider reads a canonical topology, translates it with a region and SKU catalog, and drives
-- Terraform and a migration backend. Beside that it has gates that decide from a Terraform plan whether
-- a deployment may go on. The library models the parts below; each file says which code it is about.
--
-- Parts and files.
--   Prelude         numbers, lists, options and results, and the lemmas on them that the parts share.
--                   Prelude/Results has the results of fallible code and a predicate on what succeeds,
--                   Prelude/Least the least row of a list by an order.
--   GoLang          what the code uses of the Go language and its library: texts by code points
--                   (GoLang/Text), int with wrap-around (GoLang/Int64), strconv (GoLang/Strconv),
--                   sort.Strings and sort.Slice (GoLang/Sort), interface{} values as encoding/json
--                   decodes them and reflect.DeepEqual on them (GoLang/Value), and float64 as an
--                   interface (GoLang/Float) that GoLang/Exact meets with whole numbers.
--   Plan            internal/tfplanparser/parser.go: ParsePlan is Plan/Parse, recursiveDiff is Plan/Diff,
--                   isSecuritySensitive is Plan/Sensitive, the cost signals and their rules are
--                   Plan/Cost. Plan/Counts is on the counters.
--   Scan            pkg/iacsecscan/scanner.go: open ports in Scan/Ports, storage and IAM in
--                   Scan/Storage, Scan and ScanWithResult in Scan. Scan/Severity is on what blocks.
--   Gate            internal/driftdeploygate/gate.go: EvaluateDriftPolicy and its two extensions call
--                   Plan and Scan. Gate/Verdict and Gate/Advisories are on what a verdict means.
--   Signal          internal/driftsignalrule/rule.go: EvaluateAndSignal over the parsed plan.
--   CostRules       internal/costsignalrule and pkg/billingscan: Evaluate and the built-in rules in
--                   CostRules, Scanner.Scan in CostRules/Billing.
--   ArchMismatch    internal/archmismatch/detector.go: Analyze and its rules; the sets of resource types
--                   are in ArchMismatch/Sets.
--   Catalog         internal/catalog: ProviderToCSP and the region row of catalog.go in Catalog/Names;
--                   TranslateVM and nearestSizes of virtualmachine.go in Catalog/VirtualMachine; the
--                   catalog in memory of embedded.go, which TranslateVM asks for regions, machines and
--                   images, in Catalog/Embedded, its loading in Load and Linode below it;
--                   bindServiceHosts of host_placement.go in Catalog/Hosts;
--                   TranslateNetwork of network.go in Catalog/Network, with deriveZones in
--                   Catalog/Network/Zones; TranslateSecurityGroup of securitygroup.go in
--                   Catalog/SecurityGroup/Translate, its checks of a rule in Checks and of a
--                   provider's limits in Limits; TranslateManagedDatabase and the guard against the
--                   loss of data of manageddatabase.go in Catalog/ManagedDatabase, the classes of
--                   databases of embedded.go in Catalog/Embedded/Databases; TranslateScaleGroup of
--                   scalegroup.go in Catalog/ScaleGroup; TranslateLoadBalancer of loadbalancer.go
--                   in Catalog/LoadBalancer; TranslateObjectStorage of objectstorage.go in
--                   Catalog/ObjectStorage; mitigation.go, up to its printing, in
--                   Catalog/Mitigation; securitybaseline.go and the first steps of AssembleHCL
--                   (assemble.go), which tag the machines and derive the security group of an
--                   environment, in Catalog/Environment; architecture_detect.go and
--                   IsCargoCultOperator of operator.go in Catalog/Architecture.
--   Migration       internal/migration: the ephemeral key, sealTo and open in Migration/Seal; the
--                   request, the answer and the redaction of error bodies of client.go in
--                   Migration/Client and Migration/Redact; detection and selection of a confidential
--                   runtime in Migration/Runtime, the Attest methods and nitro.go below it; the
--                   statuses and steps of internal/migration/runtime in Migration/Status, runProgram
--                   in Migration/Interpreter; Engine.Run, which calls all of these, in
--                   Migration/Engine.
--
-- How state and effects are modelled. A struct is a record and a method returns the new record. A
-- message is kept as the data that it prints. A decoded document (a plan, a step program) is an
-- argument, with a case for the decoder's failure. A map is a list of entries read by key. A send on
-- a channel that a cancelled context may lose is a choice, given as a function of the send's number.
-- What the code calls outside of the repository is an argument: the curve, the cipher and the random
-- source, COSE, CBOR and X.509, the NSM device, the files that detection looks for, the backend, the
-- records that encoding/csv reads, the answers of the providers' command line tools, SHA-256, the
-- folding of letters and the package net. Loops are recursions on lists; only the digits of a number
-- (itoa) run on fuel, the number and one more, which is enough since each step divides by ten.
--
-- Bounds. Counters and lengths are natural numbers. The weights and percentages of a migration are
-- 64-bit integers that wrap around, and so is the distance between sizes of machines; the theorem on
-- percentages assumes that a hundred times the sum of the weights is below 2^63.
--
-- Not modelled: the Terraform framework glue (internal/provider), HTTP (internal/client), the text
-- templates that print HCL (internal/catalog/render*.go), the device session of the NSM, files and
-- flags (cmd), the loaders of single providers but Linode's, the steps of AssembleHCL after the
-- security group, and the translations of caches, clusters, messaging, edge, static sites,
-- certificates and serverless functions. Lower-casing knows Latin-1 and the letters whose lower case is
-- ASCII.
pub mod ArchMismatch
pub mod Catalog
pub mod CostRules
pub mod Gate
pub mod GoLang
pub mod Migration
pub mod Plan
pub mod Prelude
pub mod Scan
pub mod Signal
