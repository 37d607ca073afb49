-- ===== src/Tests.antt =====
-- Runs on concrete inputs of the parts of the kernel.
mod ListRuns
mod TextRuns
mod FileRuns
mod WordRuns
mod TarRuns
mod TaskRuns
mod BlockRuns
mod DiscRuns
mod LockRuns
mod BitRuns
mod ScreenRuns
mod PageRuns
mod KeyRuns
mod DriveRuns
mod BusRuns
mod CallRuns
