-- ===== src/Deploy.antt =====
-- orchestrator/deploy.py: every call of helm and kubectl, and what is kept between calls. The
-- definitions stand in the children, in the order of the file.
pub mod Klog
pub mod Tools
pub mod Probe
pub mod Run
pub mod Releases
pub mod Apply
