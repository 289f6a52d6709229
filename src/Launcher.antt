-- ===== src/Launcher.antt =====
-- What the launcher does around a program: `common/util.py`, `run/env_util.py` and
-- `run/network_util.py`.
pub mod Environment
pub mod Network
mod Tests
