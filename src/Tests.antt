-- ===== src/Tests.antt =====
-- Runs of the code on concrete inputs, and the theorems at concrete arguments: a small server in
-- Server, and one module of examples for each part.
mod Objects
mod Server
mod ApiExamples
mod CheckExamples
mod AwsExamples
mod ControllerExamples
mod StatusExamples
mod LivenessExamples
mod EndExamples
mod StartupExamples
mod StoreExamples
mod WiringExamples
mod CopyExamples
mod Registry
mod ConvergeExamples
mod BakeExamples
