-- ===== src/Gst.antt =====
-- src/services/gst.js: GST numbers, the tax on an amount, and what a buyer's details have to be.
pub mod Number
pub mod Tax
pub mod Typos
pub mod Profile
pub mod Words
