-- ===== src/Obs.antt =====
-- What src/osc-util.cpp, src/osc-objects.cpp, src/osc-controls.cpp, src/osc-feedback.cpp and
-- src/osc-query-schema.cpp see of OBS Studio. libobs and the frontend are not part of this repository:
-- the calls that change something are values, and what a call that reads answers is a parameter, a
-- function of the changes requested so far.
pub mod Actions
pub mod Readings
pub mod Keeps
