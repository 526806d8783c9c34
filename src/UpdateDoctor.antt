-- ===== src/UpdateDoctor.antt =====
-- resilient_updates/update_doctor.py: the routes that exist from here, and the sources that each of
-- them reaches.
pub mod Transports
pub mod Matrix
pub mod Choice
